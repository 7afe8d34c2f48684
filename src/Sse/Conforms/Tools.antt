-- ===== src/Sse/Conforms/Tools.antt =====
-- core/anthropic/sse.py: what an assignment to `tool_states` does to the open blocks.
use bailian_free_claude_code.Base.{
  ℕ, ◌+◌, ◌≡◌, refl, ◌⊎◌, inl, inr, true, Option, none, some, [], ◌∷◌, arith, ltb, Bool-cases, ◌==◌,
  nat_eq, string_eq, Dict, get, put, get-put,
}
use bailian_free_claude_code.Base.{nat_beq_iff}
use bailian_free_claude_code.Sse.Json.{ℤ, int_eq, int_beq_iff}
use bailian_free_claude_code.Sse.Builder.{ToolCallState}
use bailian_free_claude_code.Sse.Builder.ToolArgs.{JsonCodec, any_started}
use bailian_free_claude_code.Sse.Transport.{is_started}
use bailian_free_claude_code.Sse.Conforms.{bit, stands_at, tools_at, is_calm, calm_tools}

abbrev pub old_at : Option ToolCallState → ℤ → ℕ
old_at none i = 0
old_at (some s) i = bit (stands_at s i)

pub tools_at-put :
    (d : Dict ℕ ToolCallState) (k : ℕ) (s : ToolCallState) (i : ℤ)
    → tools_at (put d k s) i + old_at (get d k) i ≡ tools_at d i + bit (stands_at s i)
unfolding tools_at put get
tools_at-put [] k s i = omega arith
tools_at-put ((j, r) ∷ d) k s i = ground (arith, tools_at-put d k s i)

pub any_started-put :
    (d : Dict ℕ ToolCallState) (k : ℕ) (s : ToolCallState)
    → any_started (put d k s) ≡ true
    → (s.started ≡ true) ⊎ (any_started d ≡ true)
unfolding put
any_started-put [] k s e = ground (arith, e)
any_started-put ((j, r) ∷ d) k s e = elim (Bool-cases (j == k)) [
  | inl here ↦ ground (arith, e, here)
  | inr there ↦ elim (Bool-cases (any_started (put d k s))) [
    | inl later ↦ elim (any_started-put d k s later) [
      | inl mine ↦ inl mine
      | inr old ↦ inr (ground (arith, old))
    ]
    | inr quiet ↦ inr (ground (arith, e, there, quiet))
  ]
]

pub started-get :
    (d : Dict ℕ ToolCallState) (k : ℕ) → is_started (get d k) ≡ true → any_started d ≡ true
unfolding get
started-get [] k e = e
started-get ((j, r) ∷ d) k e = ground (arith, e, started-get d k)

pub calm-get :
    (watch : Option JsonCodec) (d : Dict ℕ ToolCallState) (k : ℕ) (s : ToolCallState)
    → calm_tools watch d ≡ true
    → get d k ≡ some s
    → is_calm watch s ≡ true
unfolding calm_tools get
calm-get watch [] k s c e = ground (arith, e)
calm-get watch ((j, r) ∷ d) k s c e = ground (arith, c, e, calm-get watch d k s)

pub calm-put :
    (watch : Option JsonCodec) (d : Dict ℕ ToolCallState) (k : ℕ) (s : ToolCallState)
    → calm_tools watch d ≡ true
    → is_calm watch s ≡ true
    → calm_tools watch (put d k s) ≡ true
unfolding calm_tools put get
calm-put watch [] k s c e = ground (arith, e)
calm-put watch ((j, r) ∷ d) k s c e =
    ground (arith, c, e, calm-put watch d k s, get-put d k s j, nat_beq_iff j k)

tools_at-started :
    (d : Dict ℕ ToolCallState) (i : ℤ) → ltb 0 (tools_at d i) ≡ true → any_started d ≡ true
unfolding tools_at
tools_at-started [] i e = ground (arith, e)
tools_at-started ((j, r) ∷ d) i e = ground (arith, e, tools_at-started d i)

-- A state that is in the dict and started stands at its index.
pub tools_at-get :
    (d : Dict ℕ ToolCallState) (k : ℕ) (s : ToolCallState)
    → get d k ≡ some s
    → s.started ≡ true
    → ltb 0 (tools_at d s.block_index) ≡ true
unfolding tools_at get
tools_at-get [] k s e on = ground (arith, e)
tools_at-get ((j, r) ∷ d) k s e on = elim (Bool-cases (j == k)) [
  | inl here ↦ ground (arith, e, on, here, (int_beq_iff s.block_index s.block_index).1 refl)
  | inr there ↦ ground (arith, tools_at-get d k s (ground (arith, e, there)) on)
]
