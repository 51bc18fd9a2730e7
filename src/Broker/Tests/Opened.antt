-- ===== src/Broker/Tests/Opened.antt =====
-- An operation for Eventbrite that the broker opens and the drafts accept.
use civic_loop.Prelude.Result.{Result, ok, err}
use civic_loop.Prelude.Table.{find}
use civic_loop.Prelude.{refl, true, false, some, none, [], ◌∷◌, arith}
use civic_loop.Json.{Fields, str, obj, end, field, dumps}
use civic_loop.Launch.Text.{decimal}
use civic_loop.Tool.{bounded_json, walk, encodable}
use civic_loop.Capability.{WorkflowCapability}
use civic_loop.Draft.{Contracts, World, Run}
use civic_loop.Draft.Payload.Contract.{contracts_of}
use civic_loop.Broker.{Refusal, ToolWorkflow, Submission, digest}
use civic_loop.Broker.Tools.{Written, execute}
use civic_loop.Broker.Accepted.{shared}
use civic_loop.Broker.Opened.{Extends, execute-Extends}
use Prim.Native.String.{count}

abbrev contracts : Contracts
contracts = contracts_of (record {
  sha256 = λ s. s;
  id_text = decimal;
  moment = λ s. some (count s);
  is_zone = λ s. true;
})

abbrev capability : WorkflowCapability
capability = record {
  id = 3;
  token_digest = "token";
  revision_digest = "{}";
  workflow_id = 1;
  revision_id = 4;
  actor_id = 7;
  tools = "request_eventbrite_draft" ∷ [];
  audience = "civicloop-hermes";
  issued_at = 0;
  expires_at = 300;
  revoked_at = none;
  correlation_id = some "c";
}

abbrev workflow : ToolWorkflow
workflow = record {
  id = 1;
  event_id = 2;
  revision_id = 4;
  revision_event_id = 2;
  snapshot = obj end;
  is_synthetic = true;
}

abbrev proposed : Submission
proposed = record {
  id = 12;
  proposal = record {
    capability = capability;
    kind = "proposal";
    content = obj end;
    digest = "{}";
  };
}

abbrev agent_run : Run
agent_run = record {
  id = 8;
  has_succeeded = true;
  hermes_lane = true;
  workflow_id = 1;
  event_revision_id = 4;
  package_hash = "h";
  hermes_binding = some (record { actor_id = 7; revision_digest = "{}"; correlation_id = "c" });
  control = some (some 3);
}

abbrev world : World
world = record {
  eventbrite_write_enabled = true;
  iterable_write_enabled = false;
  users = [];
  actors = [];
  sessions = [];
  workflows = record { id = 1; revision_id = 4; snapshot = obj end; package_hash = "h" } ∷ [];
  runs = agent_run ∷ [];
  intents = [];
  connections = [];
}

abbrev fields : Fields
fields = field "proposal_id" (str "12") end

abbrev written_of : Result Refusal Written → Written
written_of (ok answer) = answer
written_of (err e) = (obj end, ([], []))

abbrev written : Written
unfolding execute digest bounded_json walk encodable dumps decimal
written = written_of (
    execute (shared contracts (λ s. s)) "request_eventbrite_draft" 20 fields capability workflow
      (proposed ∷ []) [])

execute-Extends_example : Extends contracts (λ s. s) "{}" agent_run world [] written.1.1
unfolding written execute digest bounded_json walk encodable dumps decimal find
execute-Extends_example =
    execute-Extends contracts (λ s. s) true 20 fields capability workflow (proposed ∷ []) []
      agent_run world {found = proposed} {result = written.0} {left = written.1.0}
      {after = written.1.1} refl
      (
        record { id = 1; revision_id = 4; snapshot = obj end; package_hash = "h" },
        record { actor_id = 7; revision_digest = "{}"; correlation_id = "c" },
        refl,
        refl,
        refl,
        refl,
        refl,
        refl,
        refl,
        refl,
        refl,
        refl,
        refl,
      )
      (λ b. ground arith) refl
