-- ===== src/Projection.antt =====
-- internal/orchestrator/projection: the rows of the event feed, the cursor and the read models of the cost.
pub mod Cost
pub mod Runner
pub mod Order
pub mod Written
pub mod Exact
pub mod Progress
mod Examples
use harness_ai.Prelude.{
  ℕ, ◌+◌, ◌==◌, ◌≡◌, ltb, Bool, true, false, ◌&&◌, ◌||◌, String, Option, none, some, List, [], ◌∷◌,
  if◌then◌else◌,
}
use harness_ai.Llm.{Usage, F64}

-- That a list has an element, with its place.
module _ {ℓ} {A : Type ℓ} where
  pub data Among (a : A) : List A → Type ℓ where
    here : {x : A} {xs : List A} → a ≡ x → Among a (x ∷ xs)
    there : {x : A} {xs : List A} → Among a xs → Among a (x ∷ xs)

-- cursor.go: `Cursor`, and `rowCursor` with the same fields
pub record Cursor : Type 0 where
  pub transaction_id : ℕ
  pub global_id : ℕ

-- `Less`
unfoldable pub less : Cursor → Cursor → Bool
less c d =
    if c.transaction_id == d.transaction_id
    then ltb c.global_id d.global_id
    else ltb c.transaction_id d.transaction_id

-- `Advance`: `none` is its panic.
unfoldable pub advance : Cursor → List Cursor → Option Cursor
unfolding less
advance c [] = some c
advance c (r ∷ rows) = let rest = advance r rows in if less c r then rest else none

-- cost.go: `EventRow`, without what the costs ignore
pub record EventRow : Type 0 where
  pub transaction_id : ℕ
  pub global_id : ℕ
  pub seq : ℕ
  pub tenant_id : String
  pub session_id : String
  pub event_type : String
  pub payload : String

-- `rowCursor`
abbrev pub row_cursor : EventRow → Cursor
row_cursor r = record { transaction_id = r.transaction_id; global_id = r.global_id }

-- cost_projector.go: `terminalRow`
pub record TerminalRow : Type 0 where
  pub turn_id : String
  pub event_type : String
  pub cost : F64
  pub usage : Usage

-- A row of session_cost_events.
pub record CostRow : Type 0 where
  pub global_id : ℕ
  pub tenant_id : String
  pub session_id : String
  pub model : String
  pub event_type : String
  pub cost_usd : F64
  pub usage : Usage

-- How a statement ends for its caller: executed, refused, or executed with its answer lost.
pub data Reply : Type 0 where
  executed refused lost : Reply

abbrev pub is_executed : Reply → Bool
is_executed executed = true
is_executed _ = false

-- Whether the statement has its effect.
abbrev pub is_effective : Reply → Bool
is_effective refused = false
is_effective _ = true

-- encoding/json on the payloads, and the addition of float64.
pub record Codec : Type 0 where
  pub started : String → Option (String × String)
  pub finished : String → Option (String × F64 × Usage)
  pub aborted : String → Option (String × F64 × Usage)
  pub model_field : String → Option String
  pub add_cost : F64 → F64 → F64

-- How the statements of one poll end.
pub record Weather : Type 0 where
  pub fetch_up : Bool
  pub lookup_up : ℕ → Bool
  pub insert : ℕ → Reply
  pub other_sinks : List EventRow → Bool
  pub save : Reply
