-- ===== src/Envelope.antt =====
-- standin-service/src/envelope.ts: the envelope around every request and response.
pub mod Bodies
use mathlib.Core.Option
use finlabs_explore.Prelude.{ℕ, String, Bool, Option, none, some, or_default, ◌==◌, if◌then◌else◌}
use finlabs_explore.Js.Text.{strip_prefix}
use Bodies.{Body, nothing}
use finlabs_explore.World.{World, Exec, pure, ◌>>=◌, random_uuid, now_iso}
use finlabs_explore.World.Env.{Env}

-- A field that is null counts as missing.
pub record RequestContext : Type 0 where
  pub id : String
  pub version : String
  pub ts : String
  pub msg_id : String
  pub transaction_id : Option String
  pub authorization : Option String

pub data Status : Type 0 where
  successful failed pending accepted : Status

pub record ResponseError : Type 0 where
  pub code : String
  pub message : String

pub record ResponseContext : Type 0 where
  pub id : String
  pub version : String
  pub ts : String
  pub msg_id : String
  pub transaction_id : Option String
  pub status : Status
  pub error : Option ResponseError

pub record Response : Type 0 where
  pub http : ℕ
  pub context : ResponseContext
  pub response : Body

-- A text that is there and not empty.
abbrev pub non_empty : Option String → Option String
non_empty none = none
non_empty (some s) = if s == "" then none else some s

module _ (e : Env) where
  unfoldable pub response_context : Option RequestContext → Status → Exec ResponseContext
  unfolding ◌>>=◌ now_iso random_uuid
  response_context ctx status = do
    now ← now_iso e
    msg_id ← random_uuid e
    pure (record {
      id = or_default (Option.map (λ c. c.id) ctx) "api.unknown";
      version = or_default (Option.map (λ c. c.version) ctx) "1.0";
      ts = now;
      msg_id = msg_id;
      transaction_id = Option.bind ctx (λ c. non_empty c.transaction_id);
      status = status;
      error = none;
    })

  unfoldable pub respond : Option RequestContext → Body → ℕ → Exec Response
  unfolding ◌>>=◌ response_context
  respond ctx body http = do
    context ← response_context ctx successful
    pure (record { http = http; context = context; response = body })

  unfoldable pub accept : Option RequestContext → Body → String → Exec Response
  unfolding ◌>>=◌ response_context
  accept ctx body transaction_id = do
    context ← response_context ctx accepted
    pure (record {
      http = 202;
      context = record context { transaction_id = some transaction_id };
      response = body;
    })

  unfoldable pub fail : Option RequestContext → ℕ → (code message : String) → Exec Response
  unfolding ◌>>=◌ response_context
  fail ctx http code message = do
    context ← response_context ctx failed
    pure (record {
      http = http;
      context = record context { error = some (record { code = code; message = message }) };
      response = nothing;
    })

-- `Bearer x` gives `x`, any other text itself.
unfoldable pub bearer_token : Option RequestContext → Option String
unfolding strip_prefix
bearer_token ctx =
    Option.map (λ raw. or_default (strip_prefix "Bearer " raw) raw)
      (Option.bind ctx (λ c. non_empty c.authorization))
