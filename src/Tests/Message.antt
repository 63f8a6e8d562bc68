-- ===== src/Tests/Message.antt =====
-- The hexadecimal print of common/ at a concrete message.
use linux_driver.Base.{◌≡◌, refl, some, List, [], ◌∷◌, ◌++◌, replicate, map, codes, arith}
use linux_driver.Message.{hex, dbg_print_msg}
use linux_driver.Message.Rows.{Row, bytes, hexes, dbg_print_msg-rows}

-- One row of sixteen bytes, then two bytes more.
abbrev a_row : List Row
a_row = (0xff, replicate 15 0x1a) ∷ []

dbg_print_msg-rows_example :
    dbg_print_msg (bytes a_row ++ (0x2b ∷ 0x3c ∷ [])) ≡ (0, some ([] ∷ map (λ r. hexes r.1) a_row))
dbg_print_msg-rows_example = dbg_print_msg-rows a_row 0x2b (0x3c ∷ []) (refl, tt) (omega arith)

two_digits : hexes (0x1a ∷ 0xff ∷ []) ≡ codes "1aff"
unfolding hex
two_digits = refl
