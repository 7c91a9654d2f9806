-- ===== src/Tests/Walking.antt =====
-- The theorems on the wallet, at concrete events and answers.
use finlabs_explore.Prelude.{String, ◌≡◌, ◌⊎◌, refl, true, false, some, List, [], ◌∷◌}
use finlabs_explore.Crypto.{sha256_hex, text_encode}
use finlabs_explore.Types.Account.{personal}
use finlabs_explore.Types.Transaction.{ProofDetails, TransactionLog}
use finlabs_explore.Envelope.Bodies.{Body, AccountKeyInfo}
use finlabs_explore.Ledger.Merkle.{ProofPathNode, right}
use finlabs_explore.Ledger.Merkle.Binding.{CollisionOn}
use finlabs_explore.App.{boot, route}
use finlabs_explore.World.{World}
use finlabs_explore.Wallet.Crypto.{fold_merkle_proof, fold_step}
use finlabs_explore.Wallet.Types.{AccountProfile}
use finlabs_explore.Wallet.Client.{
  Api, path, call_of, Answer, answered, refused, ApiError, api_error, other_error,
}
use finlabs_explore.Wallet.Backend.{Backend}
use finlabs_explore.Wallet.Backend.Service.{post, service}
use finlabs_explore.Wallet.Shapes.{post-IsRead}
use finlabs_explore.Wallet.Shapes.Sending.{fits}
use finlabs_explore.Wallet.Screens.Create.{session_of}
use finlabs_explore.Wallet.Screens.Create
use finlabs_explore.Wallet.Screens.Credentials.{new_credentials}
use finlabs_explore.Wallet.Screens.Sign.{new_sign}
use finlabs_explore.Wallet.Screens.Tokens.{new_tokens}
use finlabs_explore.Wallet.Screens.Transfer
use finlabs_explore.Wallet.Screens.Transfer.{
  TransferScreen, new_transfer, tamper, checked_leaf, proof_verdict, is_proved, choose_held,
}
use finlabs_explore.Wallet.Shell.{
  Screens, signed_in, Wallet, new_wallet, Event, press_create, press_issue, press_mint,
  press_transfer, press_reset, toggle_tampered, step, play,
}
use finlabs_explore.Wallet.Journey.{IsConsistent}
use finlabs_explore.Wallet.Journey.Steps.{play-IsConsistent}
use finlabs_explore.Wallet.Tampering.{tampered_verdict, play-proved}
use finlabs_explore.Wallet.Refusal.{blocked_by, press_mint-blocked}
use finlabs_explore.Tests.Toy.{toy, packages}
use finlabs_explore.Tests.Cases.{lenient, deed_token}

abbrev stamp : World → String × String
stamp w = ("2026-01-01T00:00:00Z", "m")

abbrev lower : String → String
lower s = s

post-IsRead_example :
    (route (call_of (Api.get_token_class "PROP-DEED")) ≡ path (Api.get_token_class "PROP-DEED"))
    × (((body : Body) × ((post toy lenient stamp (Api.get_token_class "PROP-DEED") (boot toy)).0
            ≡ answered body)
          × (fits (Api.get_token_class "PROP-DEED") body ≡ true))
        ⊎ ((error : ApiError) × ((post toy lenient stamp
                (Api.get_token_class "PROP-DEED")
                (boot toy)).0
              ≡ refused (api_error error))))
post-IsRead_example = post-IsRead toy lenient stamp (Api.get_token_class "PROP-DEED") (boot toy)

abbrev tour : List Event
tour =
    press_create
    ∷ press_issue
    ∷ press_mint
    ∷ press_transfer
    ∷ toggle_tampered true
    ∷ press_reset
    ∷ []

play-IsConsistent_example :
    IsConsistent packages
      (play packages lower (service toy lenient stamp) tour new_wallet (boot toy)).0
play-IsConsistent_example =
    play-IsConsistent packages lower (service toy lenient stamp) tour (boot toy)

-- A proof of one step.
abbrev sibling : ProofPathNode
sibling = record { hash = "b"; direction = right }

abbrev proof : ProofDetails
proof = record {
  tx_id = "t";
  leaf_hash = "0a";
  merkle_root = sha256_hex packages "0ab";
  proof_path = sibling ∷ [];
  leaf_index = 0;
  proof_status = "valid";
  algorithm = "sha256";
}

abbrev shown : TransferScreen
shown = record new_transfer { proof = some proof }

shown_verdict : proof_verdict packages (record shown { tampered = false }) ≡ some true
unfolding proof_verdict checked_leaf fold_merkle_proof fold_step sha256_hex text_encode
shown_verdict = refl

tampered_verdict_example :
    (proof_verdict packages (record shown { tampered = true }) ≡ some false)
    ⊎ CollisionOn packages (sibling ∷ []) "0a" (tamper "0a")
tampered_verdict_example = tampered_verdict packages shown proof refl shown_verdict

abbrev log : TransactionLog
log = record {
  tx_id = "t";
  initiator = "did:a";
  token_transactions = [];
  status = "finalized";
  timestamps = record { submitted = ""; started = ""; completed = ""; finalized = "" };
  proof_id = "p";
  proof_profile = "merkle";
  ledger_anchors = [];
}

abbrev key : AccountKeyInfo
key = record {
  key_id = "k";
  public_key_multibase = "z";
  key_type = "Ed25519VerificationKey2020";
  purpose = [];
  status = "active";
  is_primary = true;
  created_at = "";
}

abbrev profile : AccountProfile
profile = record { did = "did:a"; address = "alice"; name = "A"; entity_type = personal }

abbrev non_compliant : ApiError
non_compliant = record {
  code = "COMPLIANCE_CHECK_FAILED";
  message = "no valid credential";
  http_status = 403;
}

abbrev failing : {T : Type 0} → Unit {0} → Answer T × Unit {0}
failing u = (refused (other_error "unreachable"), u)

-- A service that holds one token for everybody, and mints nothing.
abbrev scripted : Backend (Unit {0})
scripted = record {
  check_availability = λ address u. (answered (record { available = true }), u);
  create_account = λ payload u. (
    answered (record {
      access_token = "t";
      token_type = "Bearer";
      expires_in = 3600;
      is_existing = false;
    }),
    u,
  );
  get_account = λ token u. (answered profile, u);
  search_keys = λ token u. (answered (record { keys = key ∷ [] }), u);
  sign = λ key_reference hash u. failing u;
  get_issuer = λ u. failing u;
  issue_credential = λ payload u. failing u;
  verify_credential = λ credential u. failing u;
  revoke_credential = λ id u. failing u;
  get_token_class = λ name u. failing u;
  mint_token = λ token payload u. (refused (api_error non_compliant), u);
  get_token = λ token id u. (answered deed_token, u);
  search_tokens = λ token u. (answered (deed_token ∷ []), u);
  transfer =
      λ token id to u. (answered (record { tx_id = "t"; status = "submitted"; message = "" }), u);
  get_transaction = λ token tx_id u. (answered log, u);
  get_proof = λ token tx_id u. (answered proof, u);
}

abbrev moved : List Event
moved = press_create ∷ press_transfer ∷ []

abbrev after_moving : Wallet
after_moving = (play packages lower scripted moved new_wallet tt).0

moving_lights : after_moving.journey.proof ≡ true
unfolding play Create.create Transfer.renew Transfer.transfer fold_merkle_proof sha256_hex
    text_encode
moving_lights = refl

play-proved_example :
    (screens : Screens) × (shown : ProofDetails) × (after_moving.page ≡ signed_in screens)
    × (screens.transfer.proof ≡ some shown)
    × (fold_merkle_proof packages (checked_leaf screens.transfer.tampered shown) shown.proof_path
        ≡ shown.merkle_root)
play-proved_example = play-proved packages lower scripted moved tt moving_lights

abbrev screens : Screens
screens = record {
  session = record { token = "t"; profile = profile; key = key };
  sign = new_sign;
  credentials = new_credentials;
  tokens = record new_tokens { minted = some deed_token };
  transfer = shown;
}

abbrev holding : Wallet
holding = record {
  page = signed_in screens;
  journey = record { credential = true; token = true; transfer = true; proof = true };
  minted_id = some "t1";
}

press_mint-blocked_example : step packages lower scripted press_mint holding tt ≡ (
  record holding {
    page = signed_in (record screens { tokens = blocked_by non_compliant screens.tokens });
    journey = record { credential = true; token = false; transfer = true; proof = true };
  },
  tt,
)
press_mint-blocked_example =
    press_mint-blocked packages lower scripted screens holding tt non_compliant refl refl refl refl
