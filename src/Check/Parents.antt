-- ===== src/Check/Parents.antt =====
-- eventcheck/epochcheck and eventcheck/parentscheck.
pub mod Laws
use lachesis_ex.Prelude.{
  ℕ, suc, ◌+◌, ◌%◌, Bool, true, false, ◌&&◌, ◌||◌, not, List, [], ◌∷◌, Option, none, some, length,
  leb, ◌==◌, if◌then◌else◌, word32,
}
use lachesis_ex.Inter.{EventHeaderData, self_parent, is_self_parent, max_of}
use lachesis_ex.Pos.{Validators, has_validator}

pub data CheckError : Type 0 where
  not_relevant unauthorized : CheckError
  wrong_lamport double_parents wrong_self_parent wrong_seq past_time : CheckError

-- The error of a check, none if it passes, or a run-time panic.
pub data Verdict : Type 0 where
  passes panics : Verdict
  fails : CheckError → Verdict

-- The next check, if the ones before pass.
infixl 5 ◌then_check◌
abbrev pub ◌then_check◌ : Verdict → Verdict → Verdict
passes then_check v = v
panics then_check v = panics
(fails e) then_check v = fails e

abbrev pub unless : Bool → CheckError → Verdict
unless true e = passes
unless false e = fails e

-- `epochcheck.Checker.Validate`
unfoldable pub validate_epoch : Validators → ℕ → EventHeaderData → Verdict
validate_epoch vv epoch e =
    unless (e.epoch == epoch) not_relevant
    then_check unless (has_validator vv e.creator) unauthorized

-- The loop that finds the greatest Lamport time of the parents.
unfoldable pub max_lamport : ℕ → List EventHeaderData → ℕ
max_lamport m [] = m
max_lamport m (p ∷ ps) = max_lamport (max_of m p.lamport) ps

unfoldable pub contains : ℕ → List ℕ → Bool
contains x [] = false
contains x (y ∷ ys) = x == y || contains x ys

-- `len(e.Parents.Set()) == len(e.Parents)`: the set has one element for equal ids.
unfoldable pub set_size : List ℕ → ℕ
unfolding contains
set_size [] = 0
set_size (x ∷ xs) = if contains x xs then set_size xs else suc (set_size xs)

same : Bool → Bool → Bool
same true b = b
same false b = not b

-- The loop over the parents: exactly the self-parent has the creator of the event.
unfoldable pub check_self_parents : EventHeaderData → List ℕ → List EventHeaderData → Verdict
unfolding same
check_self_parents e (h ∷ hs) (p ∷ ps) =
    unless (same (p.creator == e.creator) (is_self_parent e h)) wrong_self_parent
    then_check check_self_parents e hs ps
check_self_parents e _ _ = passes

-- The checks against the self-parent, which stands first.
against_self_parent : EventHeaderData → List EventHeaderData → Verdict
against_self_parent e [] = panics
against_self_parent e (p ∷ ps) =
    unless (is_self_parent e p.hash) wrong_self_parent
    then_check unless (e.seq == (p.seq + 1) % word32) wrong_seq
    then_check unless (not (leb e.claimed_time p.claimed_time)) past_time

check_seq : EventHeaderData → List EventHeaderData → Option ℕ → Verdict
unfolding against_self_parent
check_seq e parents none = unless (leb e.seq 1) wrong_seq
check_seq e parents (some p) =
    unless (not (leb e.seq 1)) wrong_seq then_check against_self_parent e parents

-- `parentscheck.Checker.Validate`
unfoldable pub validate_parents : EventHeaderData → List EventHeaderData → Verdict
unfolding check_seq
validate_parents e parents =
    if not (length e.parents == length parents)
    then panics
    else unless (e.lamport == (max_lamport 0 parents + 1) % word32) wrong_lamport
      then_check unless (set_size e.parents == length e.parents) double_parents
      then_check check_self_parents e e.parents parents
      then_check check_seq e parents (self_parent e)
