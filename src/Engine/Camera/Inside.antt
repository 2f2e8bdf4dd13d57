-- ===== src/Engine/Camera/Inside.antt =====
-- The camera stays in the room.
use engge.Base.{
  ℕ, ◌+◌, ◌/◌, ◌≤◌, ◌≡◌, refl, inl, inr, false, Option, none, some, List, [], ◌∷◌, arith,
  Bool-cases, All,
}
use engge.Base.Outcome.{Outcome, done, Returns, Meets-bind, Meets-map, ◌>>=◌}
use engge.Engine.Camera.{
  Scale, Extent, Bounds, Camera, clamp, clamp_bounds, last_center, clamp_camera, put, move,
  set_bounds, reset_bounds, pan_to, update,
}

clamp_lem : (x low high : ℕ) → low ≤ high → Returns (λ y. (low ≤ y) × (y ≤ high)) (clamp x low high)
unfolding clamp
clamp_lem x low high h = ground arith

-- The room is as large as the screen, and the bounds are the right way round.
abbrev pub FitsScreen : Extent → Type 0
FitsScreen e = e.screen_size ≤ e.room_size

abbrev pub IsOrdered : Option Bounds → Type 0
IsOrdered none = Unit
IsOrdered (some b) = b.low ≤ b.high

module _ (scale : Scale) (e : Extent) (fits : FitsScreen e) where
  open scale use {Float, TimeSpan, of_nat}

  -- The position is a whole number, and half a screen away from the ends of the room at least.
  abbrev pub IsInside : Float → Type 0
  IsInside x =
      (n : ℕ) × (x ≡ of_nat n) × (e.screen_size / 2 ≤ n) × (n + e.screen_size / 2 ≤ e.room_size)

  clamp_bounds-Returns :
      (bounds : Option Bounds) (x : ℕ)
      → IsOrdered bounds
      → Returns (λ y. Unit) (clamp_bounds e bounds x)
  unfolding clamp_bounds clamp
  clamp_bounds-Returns none x h = tt
  clamp_bounds-Returns (some b) x h = ground arith

  clamp_camera-IsInside :
      (bounds : Option Bounds) (x : Float)
      → IsOrdered bounds
      → Returns IsInside (clamp_camera scale (some e) bounds x)
  unfolding clamp_camera
  clamp_camera-IsInside bounds x h =
      Meets-bind ⊥ (λ y. Unit) IsInside _ _ (clamp_bounds-Returns bounds _ h)
        λ y k.
          Meets-bind ⊥ (λ z. (e.screen_size / 2 ≤ z) × (z ≤ last_center e)) IsInside _ _
            (clamp_lem y (e.screen_size / 2) (last_center e) (omega arith))
            λ z l. (z, refl, l.0, omega arith)

-- What is called on a camera, while the room stays.
pub data Call (scale : Scale) : Type 0 where
  puts moves : (x : Scale.Float scale) → Call scale
  sets_bounds : (b : Bounds) → Call scale
  resets_bounds : Call scale
  pans : (target : Scale.Float scale) → (time : Scale.TimeSpan scale) → (function : ℕ) → Call scale
  updates : (elapsed : Scale.TimeSpan scale) → Call scale

module _ {scale : Scale} where
  -- The bounds that are set are the right way round.
  abbrev pub Allowed : Call scale → Type 0
  Allowed (sets_bounds b) = b.low ≤ b.high
  Allowed _ = Unit

  unfoldable pub make : Option Extent → Call scale → Camera scale → Outcome (Camera scale)
  unfolding put move set_bounds reset_bounds pan_to update
  make room (puts x) c = put room x c
  make room (moves x) c = move room x c
  make room (sets_bounds b) c = set_bounds room b c
  make room resets_bounds c = done (reset_bounds c)
  make room (pans target time function) c = done (pan_to target time function c)
  make room (updates e) c = update room e c

  unfoldable pub make_all :
      Option Extent → List (Call scale) → Camera scale → Outcome (Camera scale)
  unfolding make
  make_all room [] c = done c
  make_all room (x ∷ xs) c = make room x c >>= λ d. make_all room xs d

module _ (scale : Scale) (e : Extent) (fits : FitsScreen e) where
  open scale use {Float}

  abbrev Kept : Camera scale → Type 0
  Kept c = IsInside scale e fits c.position × IsOrdered c.bounds

  put-Kept : (x : Float) (c : Camera scale) → IsOrdered c.bounds → Returns Kept (put (some e) x c)
  unfolding put
  put-Kept x c h =
      Meets-bind ⊥ (IsInside scale e fits) Kept _ _
        (clamp_camera-IsInside scale e fits c.bounds x h) λ y k. (k, h)

  update-Kept :
      (t : Scale.TimeSpan scale) (c : Camera scale) → Kept c → Returns Kept (update (some e) t c)
  unfolding update
  update-Kept t c (i, h) =
      let waited = Scale.add_time scale c.elapsed t in
      elim (Bool-cases (Scale.is_before scale waited c.time)) [
        | inl going ↦
            rw (update, going)
              (Meets-bind ⊥ (IsInside scale e fits) Kept _ _
                (clamp_camera-IsInside scale e fits c.bounds _ h) λ y k. (k, h))
        | inr ends ↦ elim (Bool-cases c.is_moving) [
          | inl moving ↦
              rw (update, ends, moving)
                (put-Kept c.target (record c { elapsed = waited; is_moving = false }) h)
          | inr still ↦ rw (update, ends, still) (i, h)
        ]
      ]

  make-Kept :
      (x : Call scale) (c : Camera scale) → Allowed x → Kept c → Returns Kept (make (some e) x c)
  unfolding make move set_bounds reset_bounds pan_to
  make-Kept (puts x) c a k = put-Kept x c k.1
  make-Kept (moves x) c a k =
      Meets-bind ⊥ (IsInside scale e fits) Kept _ _
        (clamp_camera-IsInside scale e fits c.bounds _ k.1) λ y i. (i, k.1)
  make-Kept (sets_bounds b) c a k =
      Meets-bind ⊥ (IsInside scale e fits) Kept _ _
        (clamp_camera-IsInside scale e fits (some b) c.position a) λ y i. (i, a)
  make-Kept resets_bounds c a k = (k.0, tt)
  make-Kept (pans target time function) c a k = elim (Bool-cases c.is_moving) [
    | inl moving ↦ rw moving k
    | inr still ↦ rw still k
  ]
  make-Kept (updates t) c a k = update-Kept t c k

  make_all-Kept :
      (xs : List (Call scale)) (c : Camera scale)
      → All Allowed xs
      → Kept c
      → Returns Kept (make_all (some e) xs c)
  unfolding make_all
  make_all-Kept [] c a k = k
  make_all-Kept (x ∷ xs) c a k =
      Meets-bind ⊥ Kept Kept (make (some e) x c) _ (make-Kept x c a.0 k)
        λ d l. make_all-Kept xs d a.1 l

-- In a room that is at least as large as the screen, whatever is called on a camera that is inside,
-- in any order, with bounds that are the right way round: the calls return, and the camera is at a
-- whole position from which the screen does not reach out of the room.
pub make_all-IsInside :
    (scale : Scale) (e : Extent) (fits : FitsScreen e) (xs : List (Call scale)) (c : Camera scale)
    → All Allowed xs
    → IsOrdered c.bounds
    → IsInside scale e fits c.position
    → Returns (λ d. IsInside scale e fits d.position) (make_all (some e) xs c)
make_all-IsInside scale e fits xs c a h i =
    Meets-map ⊥ (make_all (some e) xs c) (make_all-Kept scale e fits xs c a (i, h)) (λ d k. k.0)
