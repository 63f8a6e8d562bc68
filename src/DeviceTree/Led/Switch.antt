-- ===== src/DeviceTree/Led/Switch.antt =====
-- dtsofled/dtsofled.c: the bit of the register that the LED hangs on, and the other bits.
use linux_driver.Base.{
  ℕ, ◌+◌, ◌*◌, ◌/◌, ◌%◌, ◌^◌, ◌<◌, ◌≡◌, refl, ap, ◌∙◌, Bool, ◌&&◌, true, false, Option, none, some,
  List, [], ◌∷◌, ◌==◌, if◌then◌else◌, arith, bit_and-digit, bit_or-digit, bit_or-zero, bit_and-ones,
}
use linux_driver.DeviceTree.Led.Write.{dtsled_write_switches}
use linux_driver.DeviceTree.Led.{clear_bit3, set_bit3, led_switch, dtsled_write}

clear_bit3_lem : (v : ℕ) → v < 2 ^ 32 → clear_bit3 v ≡ v / 16 * 16 + v % 8
unfolding clear_bit3
clear_bit3_lem v h = omega (
  arith,
  bit_and-digit v 0xffff_fff7,
  bit_and-digit (v / 2) 0x7fff_fffb,
  bit_and-digit (v / 2 / 2) 0x3fff_fffd,
  bit_and-digit (v / 2 / 2 / 2) 0x1fff_fffe,
  bit_and-ones 28 (v / 2 / 2 / 2 / 2) (omega arith),
)

set_bit3_lem : (v : ℕ) → set_bit3 v ≡ v / 16 * 16 + 8 + v % 8
unfolding set_bit3
set_bit3_lem v = omega (
  arith,
  bit_or-digit v 8,
  bit_or-digit (v / 2) 4,
  bit_or-digit (v / 2 / 2) 2,
  bit_or-digit (v / 2 / 2 / 2) 1,
  bit_or-zero (v / 2 / 2 / 2 / 2),
)

-- Bit 3 is 0 while the LED is on.
abbrev pub bit3 : ℕ → ℕ
bit3 v = v / 8 % 2

-- What a byte written makes of bit 3.
abbrev pub shown : (sta old : ℕ) → ℕ
shown sta old = if sta == 1 then 0 else if sta == 0 then 1 else old

-- The other bits of the register as they were, and bit 3 with a new value.
abbrev pub Switched : (v v' new : ℕ) → Type 0
Switched v v' new = (v' < 2 ^ 32) × (v' / 16 ≡ v / 16) × (v' % 8 ≡ v % 8) × (bit3 v' ≡ new)

led_switch-Switched : (sta v : ℕ) → v < 2 ^ 32 → Switched v (led_switch sta v) (shown sta (bit3 v))
unfolding led_switch
led_switch-Switched sta v h = ground (arith, clear_bit3_lem v h, set_bit3_lem v)

-- Writes of one byte, one after the other: the byte, and whether the kernel can read it.
unfoldable pub led_writes : List (ℕ × Bool) → (gpio1_dr : ℕ) → Option ℕ
led_writes [] v = some v
led_writes ((b, readable) ∷ ws) v = elim (dtsled_write (b ∷ []) 1 (if readable then 0 else 1) v) [
  | none ↦ none
  | some (ret, v') ↦ led_writes ws v'
]

-- Bit 3 after bytes that can be read: the last one that is 0 or 1 decides.
abbrev pub last_shown : List (ℕ × Bool) → (old : ℕ) → ℕ
last_shown [] old = old
last_shown ((b, readable) ∷ ws) old = last_shown ws (shown b old)

abbrev pub all_readable : List (ℕ × Bool) → Bool
all_readable [] = true
all_readable ((b, readable) ∷ ws) = readable && all_readable ws

-- What becomes of the register `v` by the writes: a fault if a byte could not be read.
abbrev pub After : (ws : List (ℕ × Bool)) (v : ℕ) → Option ℕ → Type 0
After ws v none = all_readable ws ≡ false
After ws v (some v') = (all_readable ws ≡ true) × Switched v v' (last_shown ws (bit3 v))

After-later :
    (b v : ℕ) (ws : List (ℕ × Bool)) (o : Option ℕ)
    → Switched v (led_switch b v) (shown b (bit3 v))
    → After ws (led_switch b v) o
    → After ((b, true) ∷ ws) v o
After-later b v ws none h a = a
After-later b v ws (some v') (small, high, low, bit) (all, (small', high', low', bit')) =
    (all, (small', high' ∙ high, low' ∙ low, bit' ∙ ap (last_shown ws) bit))

unreadable : (b v : ℕ) → dtsled_write (b ∷ []) 1 1 v ≡ none
unfolding dtsled_write
unreadable b v = refl

-- Starting from any 32-bit content of the register, writes of one byte each run through if the kernel
-- can read every byte, and fault otherwise, since the LED is switched by the caller's own byte and not
-- by the copy. Where they run through, the bits other than bit 3 are as they were, and bit 3 is what
-- the last byte decides that was 0 (LED off, bit set) or 1 (LED on, bit clear), or as it was if there
-- was none.
pub led_writes-After : (ws : List (ℕ × Bool)) (v : ℕ) → v < 2 ^ 32 → After ws v (led_writes ws v)
unfolding led_writes
led_writes-After [] v h = (refl, (h, refl, refl, refl))
led_writes-After ((b, false) ∷ ws) v h = rw (unreadable b v, led_writes) refl
led_writes-After ((b, true) ∷ ws) v h =
    let one = led_switch-Switched b v h in
    rw (dtsled_write_switches b v, led_writes)
      (After-later b v ws (led_writes ws (led_switch b v)) one
        (led_writes-After ws (led_switch b v) one.0))
