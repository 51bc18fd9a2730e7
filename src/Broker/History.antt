-- ===== src/Broker/History.antt =====
-- What becomes of the records of answered calls (backend/agents/mcp.py), whatever is called.
use civic_loop.Prelude.Result.{Result, ok, err, of_ok, of_bind, of_refuse}
use civic_loop.Prelude.{
  all, ℕ, ◌≡◌, refl, sym, ap, ◌∙◌, ◌⊎◌, inl, inr, String, Bool, false, Option, none, some, List, [],
  ◌∷◌, ◌++◌, arith, str_eq, All, subst,
}
use civic_loop.Json.{Json, Fields}
use civic_loop.Capability.{WorkflowCapability, first}
use civic_loop.Broker.{Refusal, ToolWorkflow, Invocation, Store, Hashes, bounded, digest, argument}
use civic_loop.Broker.Tools.{execute}
use civic_loop.Broker.Dispatch.{
  is_repeat, conflicts, invoke_found, idempotency_of, invoke, with_correlation, recorded,
  dispatch_mcp_tool, attempt,
}
use text.Mathlib.TextEquality.{eq_iff}
use mathlib.Core.List.{append-nil, append_assoc}
use civic_loop.Broker.{denied, invalid_arguments, does_not_exist}
use civic_loop.Broker.Answered.{bound_of, attempt-Answered}

str_eq_sym : (s t : String) → str_eq s t ≡ str_eq t s
str_eq_sym s t = ground (arith, eq_iff s t, eq_iff t s)

of_first :
    {A : Type 0} (p : A → Bool) (x : A) (xs : List A)
    → first p (x ∷ xs) ≡ none
    → (p x ≡ false) × (first p xs ≡ none)
of_first p x xs n = ground arith

All-last :
    {A : Type 0} (P : A → Type 0) (xs : List A) (x : A) → All P xs → P x → All P (xs ++ x ∷ [])
All-last P [] x all last = (last, tt)
All-last P (y ∷ ys) x (first, all) last = (first, All-last P ys x all last)

module _ (h : Hashes) where
  is_repeat_sym :
      (x y : Invocation)
      → is_repeat h x.request_id x.idempotency_digest y
        ≡ is_repeat h y.request_id y.idempotency_digest x
  is_repeat_sym x y =
      rw
        (str_eq_sym y.request_id x.request_id, str_eq_sym y.idempotency_digest x.idempotency_digest)

  -- The records are as they were, or have a new one at the end that repeats none.
  abbrev Extends : List Invocation → List Invocation → Type 0
  Extends before after =
      (after ≡ before)
      ⊎ ((row : Invocation) × (after ≡ before ++ row ∷ [])
          × (first (is_repeat h row.request_id row.idempotency_digest) before ≡ none))

  invoke_found-Extends :
      (o : Option Invocation) (tool : String) (id : ℕ) (fs : Fields)
      (capability : WorkflowCapability) (workflow : ToolWorkflow) (argument_digest idem : String)
      (s : Store) (result : Json) (t : Store)
      → first (is_repeat h (argument "request_id" fs) idem) s.invocations ≡ o
      → invoke_found h o tool id fs capability workflow argument_digest idem s ≡ ok (result, t)
      → Extends s.invocations t.invocations
  invoke_found-Extends none tool id fs capability workflow argument_digest idem s result t found e =
      let ((answer, (submissions, operations)), _, e1) =
        of_bind (execute h tool id fs capability workflow s.submissions s.operations) e in
      let (_, _, e2) =
        of_bind (bounded (with_correlation (argument "correlation_id" fs) answer)) e1 in
      inr (_, ap (λ p. p.1.invocations) (sym (of_ok e2)), found)
  invoke_found-Extends (some row) tool id fs capability workflow argument_digest idem s result t
        found e =
      let (_, e1) = of_refuse (conflicts h capability tool argument_digest idem row) _ e in
      inl (ap (λ p. p.1.invocations) (sym (of_ok e1)))

  invoke-Extends :
      (tool : String) (id : ℕ) (fs : Fields) (capability : WorkflowCapability)
      (workflow : ToolWorkflow) (encoded : String) (s : Store) (result : Json) (t : Store)
      → invoke h tool id fs capability workflow encoded s ≡ ok (result, t)
      → Extends s.invocations t.invocations
  unfolding invoke
  invoke-Extends tool id fs capability workflow encoded s result t e =
      let (idem, _, e1) = of_bind (digest h (idempotency_of h capability fs)) e in
      invoke_found-Extends (first (is_repeat h (argument "request_id" fs) idem) s.invocations) tool
        id fs capability workflow (h.sha256 encoded) idem s result t refl e1

  of_ok_answer :
      (tool_name : Json) (s : Store) (r : Result Refusal (Json × Store))
      → ((result : Json) (t : Store) → r ≡ ok (result, t) → Extends s.invocations t.invocations)
      → Extends s.invocations (recorded h tool_name s r).1.invocations
  of_ok_answer tool_name s (ok (result, t)) answered = answered result t refl
  of_ok_answer tool_name s (err (denied stage)) answered = inl refl
  of_ok_answer tool_name s (err invalid_arguments) answered = inl refl
  of_ok_answer tool_name s (err does_not_exist) answered = inl refl

  dispatch_mcp_tool-Extends :
      (authentic signed : Bool) (now : ℕ) (tool_name : Json) (id : ℕ) (arguments : Json)
      (token : String) (s : Store)
      → Extends s.invocations
          (dispatch_mcp_tool h authentic signed now tool_name id arguments token s).1.invocations
  unfolding dispatch_mcp_tool
  dispatch_mcp_tool-Extends authentic signed now tool_name id arguments token s =
      of_ok_answer tool_name s (attempt h authentic signed now tool_name id arguments token s)
        λ result t e.
          let (
            encoded, tool, fs, capability, actor, workflow, _, _, _, _, _, _, _, _, _, _, _, _, _,
            invoked,
          ) =
            attempt-Answered h authentic signed now tool_name id arguments token s e in
          invoke-Extends tool id fs (bound_of capability fs) workflow encoded _ result t invoked

  -- Whatever is called, in whatever order, and whatever else becomes of the other tables.
  pub data Later (s : Store) : Store → Type 0 where
    now_on : Later s s
    call :
        {t : Store}
        → Later s t
        → (authentic signed : Bool) (now : ℕ) (tool_name : Json) (id : ℕ) (arguments : Json)
          (token : String)
        → Later s (dispatch_mcp_tool h authentic signed now tool_name id arguments token t).1
    changed : {t u : Store} → Later s t → u.invocations ≡ t.invocations → Later s u

  pub Later-append :
      {s u : Store} → Later s u → (more : List Invocation) × (u.invocations ≡ s.invocations ++ more)
  Later-append {s} now_on = ([], sym (append-nil s.invocations))
  Later-append {s} (call {t} l authentic signed now tool_name id arguments token) =
      let (more, e) = Later-append l in
      elim (dispatch_mcp_tool-Extends authentic signed now tool_name id arguments token t) [
        | inl same ↦ (more, same ∙ e)
        | inr (row, grown, _) ↦ (
          more ++ row ∷ [],
          grown ∙ ap (λ xs. xs ++ row ∷ []) e ∙ append_assoc s.invocations more (row ∷ []),
        )
      ]
  Later-append (changed l kept) = let (more, e) = Later-append l in (more, kept ∙ e)

  -- Two records share neither a request nor an idempotency key.
  abbrev pub AreDistinct : List Invocation → Type 0
  AreDistinct [] = Unit
  AreDistinct (x ∷ xs) =
      All (λ y. is_repeat h x.request_id x.idempotency_digest y ≡ false) xs × AreDistinct xs

  AreDistinct-append :
      (xs : List Invocation) (row : Invocation)
      → AreDistinct xs
      → first (is_repeat h row.request_id row.idempotency_digest) xs ≡ none
      → AreDistinct (xs ++ row ∷ [])
  AreDistinct-append [] row d n = (tt, tt)
  AreDistinct-append (x ∷ xs) row (apart, d) n =
      let (other, rest) = of_first (is_repeat h row.request_id row.idempotency_digest) x xs n in
      (
        All-last (λ y. is_repeat h x.request_id x.idempotency_digest y ≡ false) xs row apart
            (is_repeat_sym x row ∙ other),
        AreDistinct-append xs row d rest,
      )

  -- Whatever is called, in whatever order, no two records of calls share a request or an idempotency
  -- digest, if none did before: the unique columns of the table refuse no row that is written.
  pub Later-AreDistinct :
      {s u : Store} → AreDistinct s.invocations → Later s u → AreDistinct u.invocations
  Later-AreDistinct d now_on = d
  Later-AreDistinct d (call {t} l authentic signed now tool_name id arguments token) =
      elim (dispatch_mcp_tool-Extends authentic signed now tool_name id arguments token t) [
        | inl same ↦ subst AreDistinct (sym same) (Later-AreDistinct d l)
        | inr (row, grown, none_before) ↦
            subst AreDistinct (sym grown)
              (AreDistinct-append t.invocations row (Later-AreDistinct d l) none_before)
      ]
  Later-AreDistinct d (changed l kept) = subst AreDistinct (sym kept) (Later-AreDistinct d l)
