-- ===== src/Engine/Inventory/Calls.antt =====
-- What actors do with their objects, and who owns them.
use engge.Base.{ℕ, ◌≡◌, ◌≢◌, none, some}
use engge.Base.Outcome.{Outcome, done, Returns}
use engge.Engine.Inventory.{
  Game, pickup_object, pickup_replacement_object, give_to, remove_inventory, clear_inventory,
}
use engge.Engine.Inventory.Counts.{AllOwned}
use engge.Engine.Inventory.Owners.{
  pickup_object-AllOwned, remove_inventory-AllOwned, give_to-AllOwned,
  pickup_replacement_object-AllOwned, clear_inventory-AllOwned,
}

-- What an actor does with its objects.
pub data Call : Type 0 where
  picks_up : (actor : ℕ) → (object : ℕ) → Call
  replaces : (actor : ℕ) → (object1 : ℕ) → (object2 : ℕ) → Call
  gives : (actor : ℕ) → (object : ℕ) → (other : ℕ) → Call
  removes : (actor : ℕ) → (object : ℕ) → Call
  clears : (actor : ℕ) → Call

unfoldable pub make : Call → Game → Outcome Game
make (Call.picks_up actor object) g = done (pickup_object actor object g)
make (Call.replaces actor object1 object2) g =
    done (pickup_replacement_object actor object1 object2 g)
make (Call.gives actor object other) g = give_to actor object other g
make (Call.removes actor object) g = done (remove_inventory actor object g)
make (Call.clears actor) g = done (clear_inventory actor g)

-- What is picked up, or replaces another object, has no owner; what is given, removed or replaced has
-- the actor for its owner, and it is given to another.
abbrev pub IsDue : Call → Game → Type 0
IsDue (Call.picks_up actor object) g = g.owner object ≡ none
IsDue (Call.replaces actor object1 object2) g =
    (g.owner object1 ≡ some actor) × (g.owner object2 ≡ none)
IsDue (Call.gives actor object other) g = (g.owner object ≡ some actor) × (actor ≢ other)
IsDue (Call.removes actor object) g = g.owner object ≡ some actor
IsDue (Call.clears actor) g = Unit

-- If every actor carries just what it owns, each once, then this stays so: a call that picks up what
-- nobody owns, replaces a carried object by such a one, gives a carried object to another actor,
-- removes a carried object, or clears the inventory of an actor, returns, and after it again every
-- actor carries just what it owns, each once.
pub make-AllOwned : (c : Call) (g : Game) → AllOwned g → IsDue c g → Returns AllOwned (make c g)
unfolding make
make-AllOwned (Call.picks_up actor object) g h d = pickup_object-AllOwned actor object g h d
make-AllOwned (Call.replaces actor object1 object2) g h d =
    pickup_replacement_object-AllOwned actor object1 object2 g h d.0 d.1
make-AllOwned (Call.gives actor object other) g h d =
    give_to-AllOwned actor object other g h d.0 d.1
make-AllOwned (Call.removes actor object) g h d = remove_inventory-AllOwned actor object g h d
make-AllOwned (Call.clears actor) g h d = clear_inventory-AllOwned actor g h
