-- ===== src/Engine/Inventory/Owners.antt =====
-- The owner of an object and the vector that holds it.
use engge.Base.{
  ℕ, ◌+◌, ◌≡◌, ◌≢◌, refl, sym, ap, subst, ◌∙◌, inl, inr, true, false, Option, none, some, List, [],
  ◌∷◌, ◌++◌, ◌==◌, ==_iff, if◌then◌else◌, arith, Bool-cases, Option-cases,
}
use engge.Base.Outcome.{Returns}
use engge.Engine.Inventory.{
  Game, set_owner, set_objects, pickup_object, replace, pickup_replacement_object, split_at,
  give_to, remove, remove_inventory, disown, clear_inventory,
}
use engge.Engine.Inventory.Counts.{
  count, shares, AllOwned, ==_refl, ==_sym, ne_of_false, not_same, count-append, count-remove,
  count-split_at, count-replace, split_at-none, shares_other,
}

-- A vector and an owner are set, and it is right for every object.
set_objects-AllOwned :
    (actor object : ℕ) (os : List ℕ) (owner : Option ℕ) (g : Game)
    → AllOwned g
    → ((o : ℕ) → o ≢ object → count o os ≡ count o (g.objects actor))
    → count object os ≡ shares actor owner
    → ((a : ℕ) → a ≢ actor → count object (g.objects a) ≡ shares a owner)
    → AllOwned (set_objects actor os (set_owner object owner g))
set_objects-AllOwned actor object os owner g h same here there a o =
    elim (Bool-cases (a == actor)) [
      | inl e ↦
          let to : a ≡ actor = (==_iff a actor).0 e in
          elim (Bool-cases (o == object)) [
            | inl f ↦
                rw (e, f)
                  (subst (λ (b : ℕ). count o os ≡ shares b owner) (sym to)
                    (ap (λ (p : ℕ). count p os) ((==_iff o object).0 f) ∙ here))
            | inr f ↦
                rw (e, f)
                  (same o (ne_of_false f)
                    ∙ subst (λ (b : ℕ). count o (g.objects b) ≡ shares a (g.owner o)) to (h a o))
          ]
      | inr e ↦ elim (Bool-cases (o == object)) [
        | inl f ↦
            rw (e, f)
              (ap (λ (p : ℕ). count p (g.objects a)) ((==_iff o object).0 f)
                ∙ there a (ne_of_false e))
        | inr f ↦ rw (e, f) (h a o)
      ]
    ]

-- An object is picked up that nobody owns.
pub pickup_object-AllOwned :
    (actor object : ℕ) (g : Game)
    → AllOwned g
    → g.owner object ≡ none
    → AllOwned (pickup_object actor object g)
unfolding pickup_object shares count
pickup_object-AllOwned actor object g h free =
    let missing : (a : ℕ) → count object (g.objects a) ≡ 0 = λ a. h a object ∙ ap (shares a) free in
    let self = ==_refl object in
    set_objects-AllOwned actor object (g.objects actor ++ object ∷ []) (some actor) g h
      (λ o k.
        let other : (object == o) ≡ false = not_same k in
        count-append o (g.objects actor) (object ∷ []) ∙ rw other (omega arith))
      (count-append object (g.objects actor) (object ∷ [])
        ∙ rw (self, ==_refl actor) (omega (arith, missing actor)))
      (λ a k. let other : (actor == a) ≡ false = not_same k in rw other (missing a))

-- An object is removed from the actor that owns it.
pub remove_inventory-AllOwned :
    (actor object : ℕ) (g : Game)
    → AllOwned g
    → g.owner object ≡ some actor
    → AllOwned (remove_inventory actor object g)
unfolding remove_inventory shares
remove_inventory-AllOwned actor object g h own =
    set_objects-AllOwned actor object (remove object (g.objects actor)) none g h
      (λ o k.
        let other : (object == o) ≡ false = not_same k in
        count-remove o object (g.objects actor) ∙ rw other refl)
      (count-remove object object (g.objects actor) ∙ rw (==_refl object) refl)
      (λ a k. let other : (actor == a) ≡ false = not_same k in h a object ∙ rw (own, other) refl)

-- Games that give the same answers.
AllOwned-same :
    (g k : Game)
    → ((a : ℕ) → k.objects a ≡ g.objects a)
    → ((o : ℕ) → k.owner o ≡ g.owner o)
    → AllOwned g
    → AllOwned k
AllOwned-same g k p q h a o = ap (count o) (p a) ∙ h a o ∙ ap (shares a) (sym (q o))

-- An object is given by its owner to another actor.
pub give_to-AllOwned :
    (actor object other : ℕ) (g : Game)
    → AllOwned g
    → g.owner object ≡ some actor
    → actor ≢ other
    → Returns AllOwned (give_to actor object other g)
unfolding give_to shares pickup_object
give_to-AllOwned actor object other g h own differ =
    elim (Option-cases (split_at object (g.objects actor))) [
      | inl n ↦
          let once : count object (g.objects actor) ≡ 1 =
            h actor object ∙ rw (own, ==_refl actor) refl in
          absurd (omega (arith, once, split_at-none object (g.objects actor) n))
      | inr (parts, n) ↦
          let bystander : (other == actor) ≡ false = not_same differ in
          let split = λ (o : ℕ). count-split_at o object (g.objects actor) parts n in
          let rest = parts.0 ++ parts.1 in
          let taken : Game = set_objects actor rest (set_owner object none g) in
          let once : count object (g.objects actor) ≡ 1 =
            h actor object ∙ rw (own, ==_refl actor) refl in
          let taken_owned : AllOwned taken =
            set_objects-AllOwned actor object rest none g h
              (λ o k.
                let away : (object == o) ≡ false = not_same k in
                let all : count o (g.objects actor) ≡ count o rest + 0 = split o ∙ rw away refl in
                omega (arith, all))
              (let all : count object (g.objects actor) ≡ count object rest + 1 =
                  split object ∙ rw (==_refl object) refl in
                omega (arith, all, once))
              (λ a k.
                let away : (actor == a) ≡ false = not_same k in h a object ∙ rw (own, away) refl) in
          let apart : (actor == other) ≡ false = not_same (λ e. differ (sym e)) in
          rw (n, give_to, apart)
            (AllOwned-same (pickup_object other object taken) _
              (λ a. elim (Bool-cases (a == other)) [
                | inr e ↦ rw e refl
                | inl e ↦
                    let away : (a == actor) ≡ false =
                      ap (λ b. b == actor) ((==_iff a other).0 e) ∙ bystander in
                    rw (e, away, bystander) refl
              ])
              (λ o. elim (Bool-cases (o == object)) [ inl e ↦ rw e refl | inr e ↦ rw e refl ])
              (pickup_object-AllOwned other object taken taken_owned (rw (==_refl object) refl)))
    ]

-- An object takes the place of another that its owner carries.
pub pickup_replacement_object-AllOwned :
    (actor object1 object2 : ℕ) (g : Game)
    → AllOwned g
    → g.owner object1 ≡ some actor
    → g.owner object2 ≡ none
    → AllOwned (pickup_replacement_object actor object1 object2 g)
unfolding pickup_replacement_object shares remove_inventory
pickup_replacement_object-AllOwned actor object1 object2 g h own free =
    let differ : object1 ≢ object2 = λ e. cc (own, free, ap g.owner e) in
    let away1 : (object2 == object1) ≡ false = not_same differ in
    let away2 : (object1 == object2) ≡ false = not_same (λ e. differ (sym e)) in
    let once : count object1 (g.objects actor) ≡ 1 =
      h actor object1 ∙ rw (own, ==_refl actor) refl in
    let missing : (a : ℕ) → count object2 (g.objects a) ≡ 0 =
      λ a. h a object2 ∙ ap (shares a) free in
    let removed = remove_inventory actor object1 g in
    let removed_owned = remove_inventory-AllOwned actor object1 g h own in
    AllOwned-same
      (set_objects actor (replace object1 object2 (g.objects actor))
        (set_owner object2 (some actor) removed))
      _ (λ a. elim (Bool-cases (a == actor)) [ inl e ↦ rw e refl | inr e ↦ rw e refl ])
      (λ o. elim (Bool-cases (o == object1)) [
        | inr e ↦ rw e refl
        | inl e ↦
            let away : (o == object2) ≡ false =
              ap (λ p. p == object2) ((==_iff o object1).0 e) ∙ away2 in
            rw (e, away) refl
      ])
      (set_objects-AllOwned actor object2 (replace object1 object2 (g.objects actor)) (some actor)
        removed removed_owned
        (λ o k.
          let away : (object2 == o) ≡ false = not_same k in
          let replaced = count-replace o object1 object2 (g.objects actor) differ in
          let left = count-remove o object1 (g.objects actor) in
          rw (==_refl actor) (ground (arith, replaced, left, away)))
        (let replaced = count-replace object2 object1 object2 (g.objects actor) differ in
          rw (==_refl actor) (ground (arith, replaced, once, missing actor)))
        (λ a k.
          let away : (actor == a) ≡ false = not_same k in
          let none_there : (a == actor) ≡ false = not_same (λ e. k (sym e)) in
          rw (away, none_there) (missing a)))

disown-owner :
    (os : List ℕ) (g : Game) (o : ℕ)
    → ((disown os g).objects ≡ g.objects)
      × ((disown os g).owner o ≡ (if count o os == 0 then g.owner o else none))
unfolding disown count
disown-owner [] g o = (refl, refl)
disown-owner (p ∷ os) g o =
    let (same, rest) = disown-owner os (set_owner p none g) o in
    (
      same,
      rest ∙ elim (Bool-cases (o == p)) [
        | inl e ↦ let f : (p == o) ≡ true = ==_sym p o ∙ e in rw (e, f) (ground arith)
        | inr e ↦ let f : (p == o) ≡ false = ==_sym p o ∙ e in rw (e, f) refl
      ],
    )

-- An actor puts down all that it carries.
pub clear_inventory-AllOwned :
    (actor : ℕ) (g : Game) → AllOwned g → AllOwned (clear_inventory actor g)
unfolding clear_inventory shares count
clear_inventory-AllOwned actor g h a o =
    let (same, owner) = disown-owner (g.objects actor) g o in
    let kept : (disown (g.objects actor) g).objects a ≡ g.objects a = ap (λ f. f a) same in
    elim (Bool-cases (a == actor)) [
      | inl e ↦
          rw (e, owner)
            (elim (Bool-cases (count o (g.objects actor) == 0)) [
              | inr f ↦ rw f refl
              | inl f ↦
                  let nothing : 0 ≡ count o (g.objects a) =
                    sym ((==_iff (count o (g.objects actor)) 0).0 f)
                    ∙ ap (λ (b : ℕ). count o (g.objects b)) (sym ((==_iff a actor).0 e)) in
                  rw f (nothing ∙ h a o)
            ])
      | inr e ↦
          rw (e, kept, owner)
            (elim (Bool-cases (count o (g.objects actor) == 0)) [
              | inl f ↦ rw f (h a o)
              | inr f ↦ rw f (
                  h a o
                  ∙ shares_other a actor (g.owner o) (ne_of_false e)
                      (λ z. ne_of_false f (h actor o ∙ z)))
            ])
    ]
