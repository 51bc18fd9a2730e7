-- ===== src/Launch.antt =====
-- LaunchLoop on the server (backend/launchloop): JSON values, the snapshot of an event's facts, and
-- the campaign package that is prepared from it. Numbers of a snapshot are natural numbers (prices
-- are whole dollars), and a nested JSON value, which no code here reads, is left out.
pub mod Text
pub mod Engine
mod Tests
pub mod Owner
pub mod Workflow
use civic_loop.Prelude.{none, some, List, [], ◌∷◌, str_eq, if◌then◌else◌, ℕ, String, Bool, Option}

pub data Value : Type 0 where
  null : Value
  flag : Bool → Value
  number : ℕ → Value
  text : String → Value

abbrev pub Snapshot : Type 0
Snapshot = List (String × Value)

-- `d[key]` and `d.get(key)` of a dictionary
abbrev pub get : String → Snapshot → Option Value
get key [] = none
get key ((k, v) ∷ rest) = if str_eq k key then some v else get key rest

-- `d.get(key, default)`
abbrev pub get_or : Value → Option Value → Value
get_or default none = default
get_or default (some v) = v

-- The exceptions that Python raises for a missing key and for arithmetic on a value that is no number.
pub data PyError : Type 0 where
  key_error type_error : PyError

pub data PackageStatus : Type 0 where
  ready_for_review needs_input blocked : PackageStatus

pub data LaneStatus : Type 0 where
  lane_complete lane_needs_input lane_blocked : LaneStatus

pub record Draft : Type 0 where
  pub subject : String
  pub body : String

pub record Assets : Type 0 where
  pub invitation : Draft
  pub reminder : Draft
  pub social : String

pub record Audience : Type 0 where
  pub id : Option String
  pub name : String
  pub member_count : ℕ
  pub language : String

-- `sponsor_ticket_price` is in cents.
pub record Sponsor : Type 0 where
  pub passed : Bool
  pub tier : String
  pub expected_discount_percent : Option ℕ
  pub actual_discount_percent : Option Value
  pub general_ticket_price : Option Value
  pub sponsor_ticket_price : Option ℕ

pub record Lane : Type 0 where
  pub label : String
  pub status : LaneStatus
  pub summary : String

pub record Package : Type 0 where
  pub schema_id : Option String
  pub status : PackageStatus
  pub missing_fields : List String
  pub questions : List (String × String)
  pub assets : Assets
  pub audience : Audience
  pub sponsor : Sponsor
  pub event_readiness : Lane
  pub campaign_composer : Lane
  pub audience_policy : Lane
  pub evidence : List String
