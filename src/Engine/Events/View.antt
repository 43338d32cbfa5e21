-- ===== src/Engine/Events/View.antt =====
-- What `Event::view` (crates/engine/src/event.rs) hides, and from whom.
use manaline.Prelude.{◌≡◌, ℕ, refl, false, Option, some, List, length, arith}
use manaline.Engine.Events.{Event, is_seat, view, drew, chat}

-- Two events that tell a viewer the same: they are one event, or somebody else drew, the same number
-- of cards, or others talked in private.
pub data Alike (viewer : Option ℕ) : Event → Event → Type 0 where
  same : {e : Event} → Alike viewer e e
  drawn :
      {seat : ℕ} {cards cards' : List ℕ}
      → is_seat viewer seat ≡ false
      → length cards ≡ length cards'
      → Alike viewer (drew seat cards) (drew seat cards')
  private :
      {from to from' to' : ℕ} {text text' : List ℕ}
      → is_seat viewer from ≡ false
      → is_seat viewer to ≡ false
      → is_seat viewer from' ≡ false
      → is_seat viewer to' ≡ false
      → Alike viewer (chat from (some to) text) (chat from' (some to') text')

-- A viewer is told the same of two events that differ only in which cards somebody else drew, if they
-- drew as many, or that are both private talk between others.
pub view-Alike :
    (viewer : Option ℕ) (e e' : Event) → Alike viewer e e' → view viewer e ≡ view viewer e'
unfolding view
view-Alike viewer e e' same = refl
view-Alike viewer e e' (drawn {seat} {cards} {cards'} other size) = ground arith
view-Alike viewer e e' (private {from} {to} {from'} {to'} {text} {text'} a b c d) = ground arith
