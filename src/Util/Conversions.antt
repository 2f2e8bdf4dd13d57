-- ===== src/Util/Conversions.antt =====
-- Conversions of src/Util/Util.cpp: directions and colors. An integer of the scripts is kept as the
-- natural number of its bits.
pub mod Colors
use engge.Base.{ℕ, ◌/◌, ◌%◌, ◌^◌, Option, none, some, Bytes, bytes_eq, codes, if◌then◌else◌}

pub data Facing : Type 0 where
  face_front face_back face_left face_right : Facing

pub data UseDirection : Type 0 where
  front back left right : UseDirection

-- `_toFacing`
unfoldable pub to_facing : Option UseDirection → Facing
to_facing none = Facing.face_front
to_facing (some UseDirection.front) = Facing.face_front
to_facing (some UseDirection.back) = Facing.face_back
to_facing (some UseDirection.left) = Facing.face_left
to_facing (some UseDirection.right) = Facing.face_right

unfoldable pub get_opposite_facing : Facing → Facing
get_opposite_facing Facing.face_front = Facing.face_back
get_opposite_facing Facing.face_back = Facing.face_front
get_opposite_facing Facing.face_left = Facing.face_right
get_opposite_facing Facing.face_right = Facing.face_left

-- `_toDirection`
unfoldable pub to_direction : Bytes → UseDirection
to_direction text =
    if bytes_eq text (codes "DIR_FRONT")
    then UseDirection.front
    else if bytes_eq text (codes "DIR_LEFT")
    then UseDirection.left
    else if bytes_eq text (codes "DIR_BACK")
    then UseDirection.back
    else if bytes_eq text (codes "DIR_RIGHT")
    then UseDirection.right
    else UseDirection.front

-- `ngf::Color`, whose alpha is 255 if it is not given.
pub record Color : Type 0 where
  pub r : ℕ
  pub g : ℕ
  pub b : ℕ
  pub a : ℕ

-- `_toColor(SQInteger)`; the cast to `int` keeps 32 bits.
unfoldable pub to_color : ℕ → Color
to_color color =
    let col = color % 2 ^ 32 in
    record { r = col / 2 ^ 16 % 256; g = col / 2 ^ 8 % 256; b = col % 256; a = col / 2 ^ 24 % 256 }

-- `_fromRgb`
unfoldable pub from_rgb : ℕ → Color
from_rgb color =
    let col = color % 2 ^ 32 in
    record { r = col / 2 ^ 16 % 256; g = col / 2 ^ 8 % 256; b = col % 256; a = 255 }
