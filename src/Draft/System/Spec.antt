-- ===== src/Draft/System/Spec.antt =====
-- What the status of one execution may do, as an abstract machine that knows no rows, approvals,
-- sessions or providers. `none` is an execution that was not submitted.
use civic_loop.Prelude.Table.{find}
use civic_loop.Prelude.{ℕ, ◌≡◌, refl, arith, Bool, true, false, ◌&&◌, Option, none, some}
use civic_loop.Draft.{
  Status, pending, approved, executing, succeeded, failed, unknown, Kind, Execution, Store,
}
use civic_loop.Draft.Rows.{key, rows}

-- The end of a dispatch
abbrev pub settled : Status → Bool
settled succeeded = true
settled failed = true
settled unknown = true
settled _ = false

-- The end of a dispatch that raised
abbrev pub lost : Status → Bool
lost failed = true
lost unknown = true
lost _ = false

pub data Move : Option Status → Option Status → Type 0 where
  stays : (o : Option Status) → Move o o
  submitted : Move none (some pending)
  approval : Move (some pending) (some approved)
  claimed : Move (some approved) (some executing)
  answered : (b : Status) → settled b ≡ true → Move (some executing) (some b)
  recovered : Move (some unknown) (some succeeded)
  overwritten : (a b : Status) → settled a ≡ true → lost b ≡ true → Move (some a) (some b)

-- The runs of the machine
pub data Run : Option Status → Option Status → Type 0 where
  rest : (o : Option Status) → Run o o
  move : (o p q : Option Status) → Run o p → Move p q → Run o q

abbrev pub status_of : Option Execution → Option Status
status_of none = none
status_of (some x) = some x.status

abbrev pub status_at : Kind → ℕ → Store → Option Status
status_at kind id s = status_of (find key id (rows kind s))

abbrev pub started_status : Status → Bool
started_status pending = false
started_status approved = false
started_status _ = true

-- The execution was claimed.
abbrev pub started : Option Status → Bool
started none = false
started (some a) = started_status a

-- The moves, as a test
abbrev pub is_move : Option Status → Option Status → Bool
is_move none none = true
is_move none (some pending) = true
is_move (some pending) (some pending) = true
is_move (some pending) (some approved) = true
is_move (some approved) (some approved) = true
is_move (some approved) (some executing) = true
is_move (some executing) (some executing) = true
is_move (some executing) (some b) = settled b
is_move (some succeeded) (some succeeded) = true
is_move (some unknown) (some succeeded) = true
is_move (some a) (some b) = settled a && lost b
is_move _ _ = false

from_none : (p : Option Status) → is_move none p ≡ true → Move none p
from_none (some pending) h = submitted
from_none (some approved) h = ground arith
from_none (some executing) h = ground arith
from_none (some succeeded) h = ground arith
from_none (some failed) h = ground arith
from_none (some unknown) h = ground arith
from_none none h = stays none

from_pending : (p : Option Status) → is_move (some pending) p ≡ true → Move (some pending) p
from_pending (some pending) h = stays (some pending)
from_pending (some approved) h = approval
from_pending (some executing) h = ground arith
from_pending (some succeeded) h = ground arith
from_pending (some failed) h = ground arith
from_pending (some unknown) h = ground arith
from_pending none h = ground arith

from_approved : (p : Option Status) → is_move (some approved) p ≡ true → Move (some approved) p
from_approved (some pending) h = ground arith
from_approved (some approved) h = stays (some approved)
from_approved (some executing) h = claimed
from_approved (some succeeded) h = ground arith
from_approved (some failed) h = ground arith
from_approved (some unknown) h = ground arith
from_approved none h = ground arith

from_executing : (p : Option Status) → is_move (some executing) p ≡ true → Move (some executing) p
from_executing (some pending) h = ground arith
from_executing (some approved) h = ground arith
from_executing (some executing) h = stays (some executing)
from_executing (some succeeded) h = answered succeeded h
from_executing (some failed) h = answered failed h
from_executing (some unknown) h = answered unknown h
from_executing none h = ground arith

from_succeeded : (p : Option Status) → is_move (some succeeded) p ≡ true → Move (some succeeded) p
from_succeeded (some pending) h = ground arith
from_succeeded (some approved) h = ground arith
from_succeeded (some executing) h = ground arith
from_succeeded (some succeeded) h = stays (some succeeded)
from_succeeded (some failed) h = overwritten succeeded failed refl refl
from_succeeded (some unknown) h = overwritten succeeded unknown refl refl
from_succeeded none h = ground arith

from_failed : (p : Option Status) → is_move (some failed) p ≡ true → Move (some failed) p
from_failed (some pending) h = ground arith
from_failed (some approved) h = ground arith
from_failed (some executing) h = ground arith
from_failed (some succeeded) h = ground arith
from_failed (some failed) h = stays (some failed)
from_failed (some unknown) h = overwritten failed unknown refl refl
from_failed none h = ground arith

from_unknown : (p : Option Status) → is_move (some unknown) p ≡ true → Move (some unknown) p
from_unknown (some pending) h = ground arith
from_unknown (some approved) h = ground arith
from_unknown (some executing) h = ground arith
from_unknown (some succeeded) h = recovered
from_unknown (some failed) h = overwritten unknown failed refl refl
from_unknown (some unknown) h = stays (some unknown)
from_unknown none h = ground arith

pub is_move-Move : (o p : Option Status) → is_move o p ≡ true → Move o p
is_move-Move none p h = from_none p h
is_move-Move (some pending) p h = from_pending p h
is_move-Move (some approved) p h = from_approved p h
is_move-Move (some executing) p h = from_executing p h
is_move-Move (some succeeded) p h = from_succeeded p h
is_move-Move (some failed) p h = from_failed p h
is_move-Move (some unknown) p h = from_unknown p h

-- A claim is never undone.
settled-started : (a : Status) → settled a ≡ true → started_status a ≡ true
settled-started succeeded h = refl
settled-started failed h = refl
settled-started unknown h = refl
settled-started pending h = h
settled-started approved h = h
settled-started executing h = refl

lost-started : (a : Status) → lost a ≡ true → started_status a ≡ true
lost-started failed h = refl
lost-started unknown h = refl
lost-started pending h = h
lost-started approved h = h
lost-started executing h = refl
lost-started succeeded h = refl

pub Move-started : {o p : Option Status} → Move o p → started o ≡ true → started p ≡ true
Move-started (stays o) h = h
Move-started submitted h = ground arith
Move-started approval h = ground arith
Move-started claimed h = refl
Move-started (answered b e) h = settled-started b e
Move-started recovered h = refl
Move-started (overwritten a b e l) h = lost-started b l

pub is_move_refl : (o : Option Status) → is_move o o ≡ true
is_move_refl none = refl
is_move_refl (some pending) = refl
is_move_refl (some approved) = refl
is_move_refl (some executing) = refl
is_move_refl (some succeeded) = refl
is_move_refl (some failed) = refl
is_move_refl (some unknown) = refl

-- A claimed execution may always end as lost.
pub is_move-lost :
    (o : Option Status) (b : Status) → started o ≡ true → lost b ≡ true → is_move o (some b) ≡ true
is_move-lost none b s l = ground arith
is_move-lost (some pending) b s l = ground arith
is_move-lost (some approved) b s l = ground arith
is_move-lost (some executing) pending s l = ground arith
is_move-lost (some executing) approved s l = ground arith
is_move-lost (some executing) executing s l = refl
is_move-lost (some executing) succeeded s l = ground arith
is_move-lost (some executing) failed s l = refl
is_move-lost (some executing) unknown s l = refl
is_move-lost (some succeeded) pending s l = ground arith
is_move-lost (some succeeded) approved s l = ground arith
is_move-lost (some succeeded) executing s l = ground arith
is_move-lost (some succeeded) succeeded s l = refl
is_move-lost (some succeeded) failed s l = refl
is_move-lost (some succeeded) unknown s l = refl
is_move-lost (some failed) pending s l = ground arith
is_move-lost (some failed) approved s l = ground arith
is_move-lost (some failed) executing s l = ground arith
is_move-lost (some failed) succeeded s l = ground arith
is_move-lost (some failed) failed s l = refl
is_move-lost (some failed) unknown s l = refl
is_move-lost (some unknown) pending s l = ground arith
is_move-lost (some unknown) approved s l = ground arith
is_move-lost (some unknown) executing s l = ground arith
is_move-lost (some unknown) succeeded s l = ground arith
is_move-lost (some unknown) failed s l = refl
is_move-lost (some unknown) unknown s l = refl
