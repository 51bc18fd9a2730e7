-- ===== src/Capability/Bound.antt =====
-- What a token of backend/agents/capabilities.py is good for.
use package.text.Mathlib.TextEquality.{eq_iff}
use civic_loop.Prelude.Result.{
  of_refuse, of_demand, refuse_pass, demand_pass, bind_pass, of_ok, of_bind, is_ok, Result, ok,
}
use Prim.Native.String.{count}
use civic_loop.Launch.{Snapshot}
use civic_loop.Launch.Workflow.{is_operator}
use civic_loop.Capability.{
  authorization_denied, audience_name, has_tools, new_capability, issue_workflow_capability, Denial,
  OwnedWorkflow, Operator, Store, is_active, known_tools, in_force, revoke_workflow_capability,
  bound_tool_context, WorkflowCapability, first, has_digest, revoke_first,
}
use civic_loop.Prelude.{
  of_not, ltb, str_eq, str_eq_refl, ◌*◌, ap, ◌∙◌, ◌&&◌, leb, ==_iff, subst, ◌+◌, ◌≤◌, ◌<◌, Bool,
  not, Option, none, ◌==◌, ℕ, String, ◌≡◌, true, false, some, List, [], ◌∷◌, ◌++◌, arith, any,
}

-- A revoked row is the first of its digest, revoked.
first-revoke_first :
    (d : String) (now : ℕ) (cs : List WorkflowCapability) (c : WorkflowCapability)
    → first (has_digest d) cs ≡ some c
    → first (has_digest d) (revoke_first d now cs) ≡ some (record c { revoked_at = some now })
first-revoke_first d now [] c h = ground arith
first-revoke_first d now (x ∷ cs) c h = ground (arith, first-revoke_first d now cs c)

-- The row that is appended is the first of its digest, if no row had it.
first-append :
    (d : String) (cs : List WorkflowCapability) (c : WorkflowCapability)
    → any (has_digest d) cs ≡ false
    → has_digest d c ≡ true
    → first (has_digest d) (cs ++ c ∷ []) ≡ some c
first-append d [] c h k = ground (arith, k)
first-append d (x ∷ cs) c h k = ground (arith, h, first-append d cs c)

three_and : {x y z : Bool} → x ≡ true → y ≡ true → z ≡ true → x && (y && z) ≡ true
three_and h k l = ground arith

==_sym : (x y : ℕ) → x == y ≡ true → y == x ≡ true
==_sym x y h = ground arith

long_enough : (s : String) → count s ≤ 160 → ltb 160 (count s) ≡ false
long_enough s h = ground arith

three_true : (x y z : Bool) → x && (y && z) ≡ true → (x ≡ true) × (y ≡ true) × (z ≡ true)
three_true x y z h = ground arith

in_force_again :
    (id : ℕ) (d rd : String) (now at workflow_id revision_id actor_id lifetime_seconds : ℕ)
    (tools : List String) (actor : Operator)
    → leb 1 lifetime_seconds && (leb lifetime_seconds 300 && (has_tools tools && known_tools tools))
      ≡ true
    → is_active actor.user && is_operator actor.role ≡ true
    → now ≤ at
    → at < now + lifetime_seconds * 1_000_000
    → in_force at
        (record {
          id = id;
          token_digest = d;
          revision_digest = rd;
          workflow_id = workflow_id;
          revision_id = revision_id;
          actor_id = actor_id;
          tools = tools;
          audience = audience_name;
          issued_at = now;
          expires_at = now + lifetime_seconds * 1_000_000;
          revoked_at = none;
          correlation_id = none;
        })
        actor
      ≡ true
in_force_again id d rd now at workflow_id revision_id actor_id lifetime_seconds tools actor h a l
      u =
    ground arith

module _ (digest : Snapshot → Result Denial String) (token_digest : String → String)
    (signed : String → Bool) where
  abbrev pub Bound : String → ℕ → Store → List String → Type 0
  Bound token now s tools =
      (c : WorkflowCapability) × (actor : Operator) × (w : OwnedWorkflow) × (first
          (has_digest (token_digest token)) s.capabilities
        ≡ some c)
      × (first (λ (a : Operator). a.id == c.actor_id) s.actors ≡ some actor)
      × (first (λ (v : OwnedWorkflow). v.id == c.workflow_id) s.workflows ≡ some w)
      × (signed token ≡ true)
      × (c.revoked_at ≡ none)
      × (c.issued_at ≤ now)
      × (now < c.expires_at)
      × (now < c.issued_at + 300_000_000)
      × (is_active actor.user ≡ true)
      × (is_operator actor.role ≡ true)
      × (w.revision.id ≡ c.revision_id)
      × (digest w.revision.snapshot ≡ ok c.revision_digest)
      × (known_tools tools ≡ true)

  in_force_lem :
      (now : ℕ) (c : WorkflowCapability) (actor : Operator)
      → in_force now c actor ≡ true
      → (c.revoked_at ≡ none)
        × (c.issued_at ≤ now)
        × (now < c.expires_at)
        × (now < c.issued_at + 300_000_000)
        × (is_active actor.user ≡ true)
        × (is_operator actor.role ≡ true)
        × (known_tools c.tools ≡ true)
  in_force_lem now c actor h = ground arith

  -- A context is only given on a row that was issued at most 300 seconds ago and has not
  -- expired, is not revoked, has an active operator and known tools, and is bound to the
  -- revision that its workflow has, unchanged.
  pub bound_tool_context-Bound :
      (token : String) (now : ℕ) (s : Store) (correlation : Option String) (tools : List String)
      → bound_tool_context digest token_digest signed token now s ≡ ok (correlation, tools)
      → Bound token now s tools
  unfolding bound_tool_context
  bound_tool_context-Bound token now s correlation tools h =
      let (_, h1) = of_refuse _ _ h in
      let (sg, h2) = of_refuse _ _ h1 in
      let (c, ce, h3) = of_demand _ _ h2 in
      let (actor, ae, h4) = of_demand _ _ h3 in
      let (live, h5) = of_refuse _ _ h4 in
      let (w, we, h6) = of_demand _ _ h5 in
      let (current, de, h7) = of_bind (digest w.revision.snapshot) h6 in
      let (same, h8) = of_refuse _ _ h7 in
      let (n, i, x, t, u, o, k) = in_force_lem now c actor (of_not live) in
      let (rev, dig, _) = three_true _ _ _ (of_not same) in
      (
        c,
        actor,
        w,
        ce,
        ae,
        we,
        of_not sg,
        n,
        i,
        x,
        t,
        u,
        o,
        (==_iff _ _).0 rev,
        de ∙ ap (λ d. ok d) ((eq_iff _ _).0 dig),
        subst (λ ts. known_tools ts ≡ true)
            (ap (λ (r : Option String × List String). r.1) (of_ok h8)) k,
      )

  -- A revoked token is good for nothing, at any time.
  revoke_workflow_capability-denies :
      (token : String) (revoked now : ℕ) (s s' : Store)
      → revoke_workflow_capability digest token_digest token revoked s ≡ ok s'
      → is_ok (bound_tool_context digest token_digest signed token now s') ≡ false
  unfolding bound_tool_context revoke_workflow_capability
  revoke_workflow_capability-denies token revoked now s s' h =
      let (c, ce, h1) =
        of_demand (first (has_digest (token_digest token)) s.capabilities) authorization_denied h in
      subst (λ t. is_ok (bound_tool_context digest token_digest signed token now t) ≡ false)
        (of_ok h1)
        (ground (arith, first-revoke_first (token_digest token) revoked s.capabilities c ce))

  context_given :
      (token : String) (now : ℕ) (s : Store) (c : WorkflowCapability) (actor : Operator)
      (w : OwnedWorkflow) (current : String)
      → ltb 160 (count token) ≡ false
      → not (signed token) ≡ false
      → first (has_digest (token_digest token)) s.capabilities ≡ some c
      → first (λ (a : Operator). a.id == c.actor_id) s.actors ≡ some actor
      → not (in_force now c actor) ≡ false
      → first (λ (v : OwnedWorkflow). v.id == c.workflow_id) s.workflows ≡ some w
      → digest w.revision.snapshot ≡ ok current
      → not (
          (w.revision.id == c.revision_id)
          && (str_eq current c.revision_digest && (w.event_id == w.revision.event_id)))
        ≡ false
      → bound_tool_context digest token_digest signed token now s ≡ ok (c.correlation_id, c.tools)
  unfolding bound_tool_context
  context_given token now s c actor w current h1 h2 h3 h4 h5 h6 h7 h8 =
      refuse_pass _ _ _ h1
      ∙ refuse_pass _ _ _ h2
      ∙ demand_pass _ _ _ h3
      ∙ demand_pass _ _ _ h4
      ∙ refuse_pass _ _ _ h5
      ∙ demand_pass _ _ _ h6
      ∙ bind_pass _ _ h7
      ∙ refuse_pass _ _ _ h8

  -- An issued token is good for its tools until it expires, while the store stays as it was
  -- left: if the token is signed and short enough, its context is given at every time of its
  -- life.
  pub issue_workflow_capability-bound :
      (id : ℕ) (token issued : String)
      (now at workflow_id revision_id actor_id lifetime_seconds : ℕ) (tools : List String)
      (s s' : Store)
      → issue_workflow_capability digest token_digest id token now workflow_id revision_id actor_id
          tools lifetime_seconds s
        ≡ ok (issued, s')
      → signed token ≡ true
      → count token ≤ 160
      → now ≤ at
      → at < now + lifetime_seconds * 1_000_000
      → bound_tool_context digest token_digest signed token at s' ≡ ok (none, tools)
  unfolding bound_tool_context issue_workflow_capability
  issue_workflow_capability-bound id token issued now at workflow_id revision_id actor_id
        lifetime_seconds tools s s' h sg short lo hi =
      let (asked, h1) = of_refuse _ _ h in
      let (w, we, h2) =
        of_demand (first (λ (v : OwnedWorkflow). v.id == workflow_id) s.workflows)
          authorization_denied h1 in
      let (actor, ae, h3) =
        of_demand (first (λ (a : Operator). a.id == actor_id) s.actors) authorization_denied h2 in
      let (may, h4) = of_refuse _ _ h3 in
      let (rd, de, h5) = of_bind (digest w.revision.snapshot) h4 in
      let (fresh, h6) = of_refuse _ _ h5 in
      let (rev, ev, person) =
        three_true (w.revision.id == revision_id) (w.revision.event_id == w.event_id)
          (is_active actor.user && is_operator actor.role) (of_not may) in
      let c =
        new_capability digest token_digest id token now workflow_id revision_id actor_id tools
          lifetime_seconds rd in
      let found =
        first-append (token_digest token) s.capabilities c fresh
          (str_eq_refl (token_digest token)) in
      let live =
        in_force_again id (token_digest token) rd now at workflow_id revision_id actor_id
          lifetime_seconds tools actor
          (of_not
            {b = leb 1 lifetime_seconds
              && (leb lifetime_seconds 300 && (has_tools tools && known_tools tools))}
            asked)
          person lo hi in
      let left : Store = record s {
        capabilities = s.capabilities ++ c ∷ [];
        audits =
            s.audits
            ++ record {
              actor_id = actor.id;
              action = "mcp.capability_issued";
              workflow_id = w.id;
              capability_id = id;
            }
              ∷ [];
      } in
      let good : bound_tool_context digest token_digest signed token at left ≡ ok (none, tools) =
        context_given token at left c actor w rd (long_enough token short) (ap not sg) found ae
          (ap not live) we de
          (ap not (three_and rev (str_eq_refl rd) (==_sym w.revision.event_id w.event_id ev))) in
      let stored : left ≡ s' = ap (λ (r : String × Store). r.1) (of_ok h6) in
      subst
        (λ (t : Store). bound_tool_context digest token_digest signed token at t ≡ ok (none, tools))
        stored good
