-- ===== src/Sse/Json.antt =====
-- The JSON values that the stream's events hold, as Python sees them, and one event of a stream
-- (core/anthropic/stream_contracts.py, `SSEEvent`). An event's text is left out: `format_sse_event`
-- prints the two fields that are kept.
pub mod Typed
use bailian_free_claude_code.Base.{
  ℕ, String, ◌≡◌, ◌↔◌, Bool, true, false, Option, none, some, arith, if◌then◌else◌, Eq, ◌==◌,
  nat_eq, string_eq,
}

-- A Python `int`.
pub data ℤ : Type 0 where
  pos : ℕ → ℤ
  negsuc : ℕ → ℤ

abbrev int_beq : ℤ → ℤ → Bool
int_beq (pos a) (pos b) = a == b
int_beq (pos a) (negsuc b) = false
int_beq (negsuc a) (pos b) = false
int_beq (negsuc a) (negsuc b) = a == b

pub int_beq_iff : (a b : ℤ) → (int_beq a b ≡ true) ↔ (a ≡ b)
int_beq_iff (pos a) (pos b) = (λ e. ground (arith, e), λ e. ground (arith, e))
int_beq_iff (pos a) (negsuc b) = (λ e. ground (arith, e), λ e. ground (arith, e))
int_beq_iff (negsuc a) (pos b) = (λ e. ground (arith, e), λ e. ground (arith, e))
int_beq_iff (negsuc a) (negsuc b) = (λ e. ground (arith, e), λ e. ground (arith, e))

instance abbrev pub int_eq : Eq ℤ
int_eq = record { beq = int_beq; beq_iff = int_beq_iff }

mutual
  pub data Json : Type 0 where
    null : Json
    boolean : Bool → Json
    number : ℤ → Json
    text : String → Json
    array : Items → Json
    object : Fields → Json

  pub data Items : Type 0 where
    nil : Items
    cons : Json → Items → Items

  pub data Fields : Type 0 where
    end : Fields
    field : String → Json → Fields → Fields

-- `d.get(k)` of a `dict`
unfoldable pub lookup : Fields → String → Option Json
lookup end k = none
lookup (field j v d) k = if j == k then some v else lookup d k

-- `d[k] = v`
unfoldable pub assign : Fields → String → Json → Fields
assign end k v = field k v end
assign (field j w d) k v = if j == k then field j v d else field j w (assign d k v)

pub record SseEvent : Type 0 where
  pub event : String
  pub data_fields : Fields
