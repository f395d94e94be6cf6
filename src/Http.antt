-- ===== src/Http.antt =====
-- The requests that dht/ sends. `http.Client` is a parameter: a request goes to the network, which
-- answers or not. Texts are lists of character codes.
use inu.Base.{ℕ, List, [], ◌∷◌, Option, none, some, ◌==◌, if◌then◌else◌, Run, ok, err}
use inu.Key.{key_eq}

abbrev pub Text : Type 0
Text = List ℕ

pub data Method : Type 0 where
  get put post : Method

pub record Request : Type 0 where
  pub method : Method
  pub url : Text
  pub headers : List (Text × Text)
  pub body : Text

pub record Response : Type 0 where
  pub status : ℕ
  pub body : Text

-- `client.Do`: `none` is an error.
pub record Http (World : Type 0) : Type 0 where
  pub send : World → Request → World × Option Response

pub data Error : Type 0 where
  send_failed bad_json : Error
  bad_code : ℕ → Error

abbrev pub Result {ℓ} : Type ℓ → Type ℓ
Result = Run Error

-- The body of an answer with the code 200.
abbrev pub body_of : Option Response → Result Text
body_of none = err send_failed
body_of (some r) = if r.status == 200 then ok r.body else err (bad_code r.status)

-- A decoder of JSON applied to a body.
abbrev pub decoded {ℓ} : {A : Type ℓ} → Option A → Result A
decoded none = err bad_json
decoded (some x) = ok x

-- `Header.Get`: the first value of the name, or no text.
abbrev pub header_of : Text → List (Text × Text) → Text
header_of name [] = []
header_of name ((n, v) ∷ hs) = let rest = header_of name hs in if key_eq name n then v else rest

-- "https://"
abbrev pub https : Text
https = 104 ∷ 116 ∷ 116 ∷ 112 ∷ 115 ∷ 58 ∷ 47 ∷ 47 ∷ []

-- "Inu-Src", "Inu-Swarm" and "Inu-Upload"
abbrev pub inu_src : Text
inu_src = 73 ∷ 110 ∷ 117 ∷ 45 ∷ 83 ∷ 114 ∷ 99 ∷ []

abbrev pub inu_swarm : Text
inu_swarm = 73 ∷ 110 ∷ 117 ∷ 45 ∷ 83 ∷ 119 ∷ 97 ∷ 114 ∷ 109 ∷ []

abbrev pub inu_upload : Text
inu_upload = 73 ∷ 110 ∷ 117 ∷ 45 ∷ 85 ∷ 112 ∷ 108 ∷ 111 ∷ 97 ∷ 100 ∷ []
