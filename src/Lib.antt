-- ===== src/Lib.antt =====
-- The identity provider of iyou.me: invite admission, the airlock gate, the logins, the accounts that
-- they resolve and the authorization codes, as functions with explicit state.
--
-- Which file models which part:
--   Text, Json, Json/Dumps      str methods, and the values and texts of the json module
--   Settings, Crypto            config/settings.py, and the cryptographic libraries as parameters
--   Cache, Cache/Memory         auth_bridge/resilient_cache.py: `ResilientCache` with its two
--                               backends, as `Caches P F`; `claim_unit` is `claim_unit`
--   Invite, Invite/Schema, Invite/Admission
--                               auth_bridge/invite_tokens.py, function by function: the decoding,
--                               the signature, the schema, the expiry, the issuer, the use budget
--   Server, Server/Users        auth_bridge/models.py and auth_bridge/backend.py: tables as lists of
--                               rows, the browser session, `DIDAuthBackend` and the elevation
--   Views/Gate, Views/Oidc, Views/Redeem, Views/Challenge
--                               auth_bridge/views.py: the gate, `_build_oidc_redirect`,
--                               `redeem_beta_invite` and `airlock_sponsor`, and the challenge views
--   Views/Email                 auth_bridge/views.py: ChallengeEmailView and VerifyEmailView
--   Views/Authorize             auth_bridge/views.py: SovereignAuthorizeView, PkceTokenView and
--                               acknowledge_legal_disclaimer, with django-oidc-provider a parameter
--   Views/Passkeys              auth_bridge/views_passkeys.py, with python-fido2 (what
--                               auth_bridge/passkeys.py wraps) as the parameter `Fido`
--   Codec, Vault                binascii, and auth_bridge/vault_client.py over the interface `Vault`
--   Views/Graduation            auth_bridge/views_graduation.py: graduate_export, graduate_confirm
--   Views/Locker                auth_bridge/views_email_locker.py: ChallengeLinkEmailView and
--                               VerifyLinkEmailView; Locker/Rows: the views on the stored rows
--   Pipeline                    auth_bridge/pipeline.py: process_oauth_identity and
--                               confirm_password_and_link
--   Credentials                 auth_bridge/credentials.py: the helpers, and in Credentials/Validate
--                               validate_age_bracket_vc
--   Tokens, Tokens/Middleware   auth_bridge/tokens.py and auth_bridge/middleware.py
--   Views/Oauth                 auth_bridge/views_oauth.py and OAUTH_PROVIDERS of config/settings.py:
--                               OAuthInitiateView, Oauth/Profile the extractors, Oauth/Callback
--                               OAuthCallbackView
--
-- How the parts interact. The login views ask `did_passes_gate` for the DID they found; a redemption
-- (`redeem_beta_invite`) opens that gate for a session, with a token that `verify_invite_token`
-- admits, a listed key or a listed DID. Admission counts its uses through `claim_unit` of the two
-- backends, which stand beside the `World`. A poll, a presentation that the Rust bridge judged, an
-- email code, an OAuth callback and a granted redemption end in `build_oidc_redirect`, which issues a
-- code. The callback asks the pipeline whose account a profile is; the pipeline reads the addresses
-- that the email locker links. Graduation reads and deletes the key that Vault holds for a user.
-- The claims of a dependent come from a credential that `validate_age_bracket_vc` accepts, and the
-- middleware asks the same registry of revocations as they do.
--
-- Conventions. The state is passed explicitly: a view is a function of the `World` (tables, session,
-- cache) that returns the next `World` and a `Response`. A request body is what json.loads returned,
-- with none for a body that is no JSON. A failure is a value: `raised` with its reason for
-- InviteTokenError, `refused`, `crashed` and the others of `Check` for the presentation checks, and
-- a response with its status for a view.
-- `cryptography`, base58, hashing, the Rust bridge and urllib.parse are parameters
-- (`Crypto`, `Env`, and for their own libraries `Signer`, `Web`, `Keys`, `Readers`), and so are the
-- requests to a provider, the random values and the time: one reading of the clock serves a
-- whole request. A backend of the cache is a record of operations each of which may raise;
-- `IsLawful` states what the theorems use of it: what `add` and `incr` do to a counter and that
-- an entry stays until its timeout or a `clear`. Cache/Memory has a backend that meets these laws;
-- a LocMemCache does not once it holds MAX_ENTRIES and culls. Each worker process has a fallback of
-- its own, and one of them is modelled, so nothing is shown of an outage of the primary.
-- The views see the cache as a map from keys to JSON values, which is what `ResilientCache.get` and
-- `set` give while the primary answers; only the invite counters are followed through both backends.
-- The ORM is modelled by its documented behaviour on the rows used, and `login` as Django documents
-- it: a session of another user is flushed. Text is a sequence of code points, lower() acts on
-- ASCII, `re.sub` keeps the ASCII digits, a JSON float keeps its text and its integer part. The text
-- of an internal error and the session key are left out of the responses. Numbers are unbounded as
-- in Python, so no overflow is modelled. Every function is structurally recursive; only the decimal
-- text of a number runs on fuel, of which the number itself is enough.
-- `IsLawful` of Vault states what a read finds after a deletion that returned, and that other paths
-- stay; of a call that raised it states nothing. `Saving` is how the database takes the transaction
-- around it. A response 500 saves no session, as
-- Django documents it, and the rows written before it stay.
--
-- Not modelled: the claims of auth_bridge/oidc.py and the pages that only render a template; the text
-- and dispatch of messages, templates, logging, the management commands, the migrations and the settings file, which hold no state of their own.
pub mod Prelude
pub mod Text
pub mod Json
pub mod Cache
pub mod Settings
pub mod Crypto
pub mod Codec
pub mod Invite
pub mod Server
pub mod Vault
pub mod Pipeline
pub mod Credentials
pub mod Tokens
pub mod Views
