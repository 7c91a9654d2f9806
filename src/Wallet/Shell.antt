-- ===== src/Wallet/Shell.antt =====
-- app/src/App.tsx: `App`, which keeps the session, the journey and the id of the token minted last, and shows
-- the screens; and the events of a user, one after the other.
use finlabs_explore.Prelude.{
  String, Bool, true, false, not, ◌&&◌, Option, none, some, List, [], ◌∷◌, ◌==◌, if◌then◌else◌,
}
use finlabs_explore.Crypto.Packages.{Primitives}
use finlabs_explore.Types.Account.{EntityType}
use finlabs_explore.Wallet.Backend.{Backend}
use finlabs_explore.Wallet.Screens.Create
use finlabs_explore.Wallet.Screens.Create.{Session, CreateForm, new_form, can_create}
use finlabs_explore.Wallet.Screens.Sign
use finlabs_explore.Wallet.Screens.Sign.{SignScreen, new_sign, can_sign}
use finlabs_explore.Wallet.Screens.Credentials
use finlabs_explore.Wallet.Screens.Credentials.{CredentialScreen, is_valid, can_issue, can_revoke}
use finlabs_explore.Wallet.Screens.Tokens
use finlabs_explore.Wallet.Screens.Tokens.{TokenScreen, is_present}
use finlabs_explore.Wallet.Screens.Transfer
use finlabs_explore.Wallet.Screens.Transfer.{TransferScreen, new_transfer, can_transfer, is_proved}

pub record Journey : Type 0 where
  pub credential : Bool
  pub token : Bool
  pub transfer : Bool
  pub proof : Bool

abbrev pub empty_journey : Journey
empty_journey = record { credential = false; token = false; transfer = false; proof = false }

pub data Stage : Type 0 where
  at_credential at_token at_transfer at_proof : Stage

abbrev pub stage_of : Stage → Journey → Bool
stage_of at_credential j = j.credential
stage_of at_token j = j.token
stage_of at_transfer j = j.transfer
stage_of at_proof j = j.proof

abbrev pub set_stage : Stage → Bool → Journey → Journey
set_stage at_credential value j = record j { credential = value }
set_stage at_token value j = record j { token = value }
set_stage at_transfer value j = record j { transfer = value }
set_stage at_proof value j = record j { proof = value }

abbrev pub same_bool : Bool → Bool → Bool
same_bool true b = b
same_bool false b = not b

-- `mark`: an unchanged stage leaves the journey as it is.
unfoldable pub mark : Stage → Bool → Journey → Journey
mark stage value j = if same_bool (stage_of stage j) value then j else set_stage stage value j

-- The screens below the session bar, there from the account's creation until the reset.
pub record Screens : Type 0 where
  pub session : Session
  pub sign : SignScreen
  pub credentials : CredentialScreen
  pub tokens : TokenScreen
  pub transfer : TransferScreen

-- Without a session there is the form for one, with it there are the screens.
pub data Page : Type 0 where
  landing : CreateForm → Page
  signed_in : Screens → Page

pub record Wallet : Type 0 where
  pub page : Page
  pub journey : Journey
  pub minted_id : Option String

abbrev pub new_wallet : Wallet
new_wallet = record { page = landing new_form; journey = empty_journey; minted_id = none }

-- `reset`, and the form as it appears again.
unfoldable pub reset : Wallet → Wallet
reset wallet = new_wallet

-- `done` of `ProgressRail`; `none` is the account's own step.
unfoldable pub rail_done : Option Session → Option Stage → Journey → Bool
unfolding is_present
rail_done session none journey = is_present session
rail_done session (some stage) journey = stage_of stage journey

-- The screens' effects on the journey, each after its own state has changed.
unfoldable pub report_credential : CredentialScreen → Journey → Journey
unfolding mark is_valid
report_credential screen j = mark at_credential (is_valid screen.result) j

unfoldable pub report_token : TokenScreen → Journey → Journey
unfolding mark is_present
report_token screen j = mark at_token (is_present screen.minted) j

unfoldable pub report_transfer : Primitives → TransferScreen → Journey → Journey
unfolding mark is_present is_proved
report_transfer p screen j =
    mark at_proof (is_proved p screen) (mark at_transfer (is_present screen.proof) j)

pub data Event : Type 0 where
  type_address type_name : String → Event
  pick_entity_type : EntityType → Event
  press_create : Event
  type_message type_verify_text : String → Event
  press_sign press_issue press_reverify press_revoke press_mint : Event
  type_recipient : String → Event
  toggle_tampered : Bool → Event
  press_transfer press_reset : Event

-- `lower` is `toLowerCase`.
module _ {σ : Type 0} (p : Primitives) (lower : String → String) (b : Backend σ) where
  -- The screens appear, and each asks for what it shows.
  unfoldable pub open_screens : Session → σ → Screens × σ
  open_screens session s =
      let (credentials, s1) = Credentials.mount b s in
      let (tokens, s2) = Tokens.mount b s1 in
      let (transfer, s3) = Transfer.renew b session.token none new_transfer s2 in
      (
        record {
          session = session;
          sign = new_sign;
          credentials = credentials;
          tokens = tokens;
          transfer = transfer;
        },
        s3,
      )

  -- `onReady`
  unfoldable pub after_create : Option Session × CreateForm → Wallet → σ → Wallet × σ
  unfolding open_screens
  after_create (none, form) wallet s = (record wallet { page = landing form }, s)
  after_create (some session, form) wallet s =
      let (screens, s') = open_screens session s in (record wallet { page = signed_in screens }, s')

  unfoldable pub on_form : Event → CreateForm → Wallet → σ → Wallet × σ
  unfolding can_create after_create
  on_form (type_address text) form wallet s =
      (record wallet { page = landing (record form { address = lower text }) }, s)
  on_form (type_name text) form wallet s =
      (record wallet { page = landing (record form { name = text }) }, s)
  on_form (pick_entity_type entity_type) form wallet s =
      (record wallet { page = landing (record form { entity_type = entity_type }) }, s)
  on_form press_create form wallet s =
      if can_create form
      then (let (r, s') = Create.create b form s in after_create r wallet s')
      else (wallet, s)
  on_form _ form wallet s = (wallet, s)

  abbrev pub with_sign : Screens → Wallet → SignScreen × σ → Wallet × σ
  with_sign screens wallet (sign, s) =
      (record wallet { page = signed_in (record screens { sign = sign }) }, s)

  unfoldable pub with_credentials : Screens → Wallet → CredentialScreen × σ → Wallet × σ
  unfolding report_credential
  with_credentials screens wallet (credentials, s) = (
    record wallet {
      page = signed_in (record screens { credentials = credentials });
      journey = report_credential credentials wallet.journey;
    },
    s,
  )

  unfoldable pub with_transfer : Screens → Wallet → TransferScreen × σ → Wallet × σ
  unfolding report_transfer
  with_transfer screens wallet (transfer, s) = (
    record wallet {
      page = signed_in (record screens { transfer = transfer });
      journey = report_transfer p transfer wallet.journey;
    },
    s,
  )

  abbrev pub is_same_id : String → Option String → Bool
  is_same_id id none = false
  is_same_id id (some old) = old == id

  -- `onMinted`: a new `mintedId` makes `Transfer` start again.
  unfoldable pub on_minted : Option String → Screens → Wallet → σ → Wallet × σ
  unfolding with_transfer
  on_minted none screens wallet s = (record wallet { page = signed_in screens }, s)
  on_minted (some id) screens wallet s =
      if is_same_id id wallet.minted_id
      then (record wallet { page = signed_in screens }, s)
      else with_transfer screens (record wallet { minted_id = some id })
          (Transfer.renew b screens.session.token (some id) screens.transfer s)

  unfoldable pub with_tokens : Screens → Wallet → (TokenScreen × Option String) × σ → Wallet × σ
  unfolding report_token on_minted
  with_tokens screens wallet ((tokens, minted_id), s) =
      on_minted minted_id (record screens { tokens = tokens })
        (record wallet { journey = report_token tokens wallet.journey }) s

  abbrev pub when : Bool → Wallet × σ → Wallet × σ → Wallet × σ
  when true done undone = done
  when false done undone = undone

  unfoldable pub on_screens : Event → Screens → Wallet → σ → Wallet × σ
  unfolding can_sign can_issue can_revoke can_transfer with_credentials with_transfer with_tokens
      reset
  on_screens (type_message text) screens wallet s =
      with_sign screens wallet (record screens.sign { message = text }, s)
  on_screens (type_verify_text text) screens wallet s =
      when (is_present screens.sign.signature)
        (with_sign screens wallet (record screens.sign { verify_text = text }, s)) (wallet, s)
  on_screens press_sign screens wallet s =
      when (can_sign screens.sign)
        (with_sign screens wallet (Sign.sign p b screens.session.key screens.sign s)) (wallet, s)
  on_screens press_issue screens wallet s =
      when (can_issue screens.credentials)
        (with_credentials screens wallet
          (Credentials.issue b screens.session.profile screens.credentials s))
        (wallet, s)
  on_screens press_reverify screens wallet s =
      when (is_present screens.credentials.credential && not (is_present screens.credentials.busy))
        (with_credentials screens wallet (Credentials.reverify b screens.credentials s)) (wallet, s)
  on_screens press_revoke screens wallet s =
      when (can_revoke screens.credentials)
        (with_credentials screens wallet (Credentials.revoke b screens.credentials s)) (wallet, s)
  on_screens press_mint screens wallet s =
      when (not screens.tokens.busy)
        (with_tokens screens wallet (Tokens.mint b screens.session.token screens.tokens s))
        (wallet, s)
  on_screens (type_recipient text) screens wallet s =
      when (is_present screens.transfer.held && not (is_present screens.transfer.proof))
        (with_transfer screens wallet (record screens.transfer { recipient = lower text }, s))
        (wallet, s)
  on_screens (toggle_tampered value) screens wallet s =
      when (is_present screens.transfer.proof)
        (with_transfer screens wallet (record screens.transfer { tampered = value }, s)) (wallet, s)
  on_screens press_transfer screens wallet s =
      when (can_transfer screens.transfer)
        (with_transfer screens wallet
          (Transfer.transfer b screens.session.token wallet.minted_id screens.transfer s))
        (wallet, s)
  on_screens press_reset screens wallet s = (reset wallet, s)
  on_screens _ screens wallet s = (wallet, s)

  abbrev pub on_page : Event → Page → Wallet → σ → Wallet × σ
  on_page event (landing form) wallet s = on_form event form wallet s
  on_page event (signed_in screens) wallet s = on_screens event screens wallet s

  -- One event, with all that follows it.
  unfoldable pub step : Event → Wallet → σ → Wallet × σ
  unfolding on_form on_screens
  step event wallet s = on_page event wallet.page wallet s

  -- The events in their order.
  unfoldable pub play : List Event → Wallet → σ → Wallet × σ
  unfolding step
  play [] wallet s = (wallet, s)
  play (event ∷ events) wallet s = let (wallet', s') = step event wallet s in play events wallet' s'
