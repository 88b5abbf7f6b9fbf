-- ===== src/Auth/Jwt.antt =====
-- Reading the claims of an access token, frontend/src/lib/jwt.ts.
use it_automation_workspace.Common.{
  ℕ, Option, none, some, List, ◌∷◌, Text, map, split_on, ◌==◌, if◌then◌else◌,
}
use Prim.Native.String.{String}

-- `AccessTokenClaims`
pub record AccessTokenClaims : Type 0 where
  pub sub : String
  pub role : String
  pub email : String
  pub exp : ℕ

-- `payload.replace(/-/g, "+").replace(/_/g, "/")`
abbrev pub to_base64 : Text → Text
to_base64 payload =
    map (λ c. if c == b'_' then b'/' else c) (map (λ c. if c == b'-' then b'+' else c) payload)

-- `token.split(".")[1]`, and `none` where there is no such part or it is empty.
abbrev pub payload_of : List Text → Option Text
payload_of (header ∷ (c ∷ payload) ∷ rest) = some (c ∷ payload)
payload_of _ = none

infixl 5 ◌>>=◌
abbrev ◌>>=◌ {ℓ κ} : {A : Type ℓ} {B : Type κ} → Option A → (A → Option B) → Option B
none >>= k = none
some a >>= k = k a

-- `decodeAccessToken`, over `atob` and `JSON.parse` to the claims; `none` is an exception.
module _ (atob : Text → Option Text) (parse_json : Text → Option AccessTokenClaims) where
  unfoldable pub decode_access_token : Text → Option AccessTokenClaims
  decode_access_token token = do
    payload ← payload_of (split_on b'.' token)
    json ← atob (to_base64 payload)
    parse_json json
