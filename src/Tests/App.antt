-- ===== src/Tests/App.antt =====
-- The programs of chrdevbase/ and newchrdevbase/ at concrete inputs.
use linux_driver.Base.{refl, pos, replicate, codes, cstr-IsText, arith}
use linux_driver.App.ReadWrite.{Answers, has_nul, chrdevbase_app, newchrdevbase_app}
use linux_driver.App.ReadWrite.Session.{WritesReads, app-WritesReads}

abbrev all_well : Answers
all_well = record { fd = pos 3; left = 0; closed = pos 0 }

app-WritesReads_example :
    WritesReads chrdevbase_app all_well (codes "usrdata") (replicate 100 1) (replicate 100 0)
    × WritesReads newchrdevbase_app all_well (codes "usrdata") (replicate 100 1) (replicate 100 0)
unfolding has_nul
app-WritesReads_example =
    app-WritesReads all_well (codes "usrdata") (replicate 100 1) (replicate 100 0) refl
      (cstr-IsText (codes "usrdata")) (omega arith) refl refl refl refl
