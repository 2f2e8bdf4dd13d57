-- ===== src/Util/Conversions/Colors.antt =====
-- Colors and the integers that stand for them.
use engge.Base.{ℕ, ◌+◌, ◌*◌, ◌/◌, ◌%◌, ◌^◌, ◌<◌, ◌≡◌, arith}
use engge.Util.Conversions.{Color, to_color, from_rgb}

-- A byte for each component, the alpha highest.
abbrev pub integer_of : Color → ℕ
integer_of c = c.a * 0x1000000 + c.r * 0x10000 + c.g * 0x100 + c.b

-- The components of a color are bytes.
pub record IsColor (c : Color) : Type 0 where
  pub r : c.r < 256
  pub g : c.g < 256
  pub b : c.b < 256
  pub a : c.a < 256

-- A color is what `_toColor` makes of the integer of its bytes, alpha, red, green and blue, and an
-- integer of 32 bits is that of the color that `_toColor` makes of it; `_fromRgb` gives the color
-- with the alpha 255.
pub to_color-integer_of :
    (c : Color) (w : ℕ)
    → IsColor c
    → w < 2 ^ 32
    → (to_color (integer_of c) ≡ c)
      × (integer_of (to_color w) ≡ w)
      × (from_rgb (integer_of c) ≡ record c { a = 255 })
unfolding to_color from_rgb
to_color-integer_of c w h k =
    let n = integer_of c in
    let low : n % 2 ^ 32 ≡ n = omega (arith, h.r, h.g, h.b, h.a) in
    let r : n % 2 ^ 32 / 2 ^ 16 % 256 ≡ c.r = omega (arith, low, h.r, h.g, h.b, h.a) in
    let g : n % 2 ^ 32 / 2 ^ 8 % 256 ≡ c.g = omega (arith, low, h.r, h.g, h.b, h.a) in
    let b : n % 2 ^ 32 % 256 ≡ c.b = omega (arith, low, h.r, h.g, h.b, h.a) in
    let a : n % 2 ^ 32 / 2 ^ 24 % 256 ≡ c.a = omega (arith, low, h.r, h.g, h.b, h.a) in
    (
      λ i. record { r = r i; g = g i; b = b i; a = a i },
      omega (arith, k),
      λ i. record { r = r i; g = g i; b = b i; a = 255 },
    )
