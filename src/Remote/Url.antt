-- ===== src/Remote/Url.antt =====
-- Addresses and the configuration of the client in redo_core/src/remote_cache.rs. An environment
-- variable is an optional text.
use redo.Base.{
  ℕ, ◌^◌, Bool, false, not, ◌&&◌, [], ◌∷◌, ◌++◌, Text, codes, text_eq, is_empty, ltb, Option, none,
  some, if◌then◌else◌, ◌==◌, Result, ok, err, bad_url, strip_prefix, split_once, trim, trim_start,
  trim_start_by, trim_end_by, all_digits, parse_unsigned, ◌>>=◌,
}
use redo.Paths.Components.{slash, ends_in_slash}
use redo.Paths.DoFiles.{rsplit_once}

-- `env_s`: set, and not only white space.
unfoldable pub env_s : Option Text → Option Text
unfolding trim is_empty
env_s none = none
env_s (some v) = let s = trim v in if is_empty s then none else some s

unfoldable pub env_flag_set : Option Text → Bool
unfolding trim is_empty text_eq
env_flag_set none = false
env_flag_set (some v) = let s = trim v in not (is_empty s) && not (text_eq s (codes "0"))

abbrev pub number_or : ℕ → Option ℕ → ℕ
number_or d none = d
number_or d (some n) = n

unfoldable pub atoi_u64 : Text → ℕ
unfolding trim parse_unsigned
atoi_u64 s = number_or 0 (parse_unsigned (2 ^ 64) (trim s))

pub record RemoteUrl : Type 0 where
  pub host : Text
  pub port : ℕ
  pub base_path : Text

abbrev pub is_slash : ℕ → Bool
is_slash c = c == slash

-- `RemoteUrl::join`
unfoldable pub join_url : RemoteUrl → Text → Text
unfolding is_empty ends_in_slash trim_start_by
join_url url suffix =
    (if is_empty url.base_path
      then slash ∷ []
      else if ends_in_slash url.base_path
      then url.base_path
      else url.base_path ++ (slash ∷ []))
    ++ trim_start_by is_slash suffix

-- The host and port, and the path from its slash on.
abbrev pub host_and_path : Text → Option (Text × Text) → Text × Text
unfolding trim_end_by
host_and_path rest none = (rest, [])
host_and_path rest (some (a, b)) = (a, slash ∷ trim_end_by is_slash b)

unfoldable pub port_or_80 : Text → ℕ
unfolding parse_unsigned
port_or_80 s = number_or 80 (parse_unsigned (2 ^ 16) s)

abbrev pub port_behind : Option Text → ℕ
unfolding port_or_80
port_behind none = 80
port_behind (some p) = port_or_80 p

-- An address in brackets, behind the opening one.
unfoldable pub bracketed : Text → Text → Result RemoteUrl
unfolding split_once trim_start strip_prefix
bracketed h path = elim (split_once b']' h) [
  | none ↦ err bad_url
  | some (inside, rest) ↦ ok (record {
    host = inside;
    port = port_behind (strip_prefix (codes ":") (trim_start rest));
    base_path = path;
  })
]

-- A host with an optional port of digits.
abbrev pub plain_host : Text → Option (Text × Text) → Text × ℕ
unfolding is_empty all_digits port_or_80
plain_host hostport none = (hostport, 80)
plain_host hostport (some (h, p)) =
    if not (is_empty p) && all_digits p then (h, port_or_80 p) else (hostport, 80)

unfoldable pub unbracketed : Text → Text → Result RemoteUrl
unfolding plain_host rsplit_once
unbracketed hostport path =
    let (host, port) = plain_host hostport (rsplit_once b':' hostport) in
    ok (record { host = host; port = port; base_path = path })

unfoldable pub parse_authority : Text × Text → Result RemoteUrl
unfolding strip_prefix bracketed unbracketed
parse_authority (hostport, path) = elim (strip_prefix (codes "[") hostport) [
  | some h ↦ bracketed h path
  | none ↦ unbracketed hostport path
]

-- Both refusals of a scheme are errors.
unfoldable pub parse_http_url : Text → Result RemoteUrl
unfolding trim strip_prefix split_once host_and_path parse_authority
parse_http_url s = elim (strip_prefix (codes "http://") (trim s)) [
  | none ↦ err bad_url
  | some rest ↦ parse_authority (host_and_path rest (split_once slash rest))
]

pub record RemoteConfig : Type 0 where
  pub url : RemoteUrl
  pub timeout : ℕ
  pub bearer_token : Option Text
  pub push_enabled : Bool

-- The variables that `config_from_env` reads.
pub record Variables : Type 0 where
  pub remote_url : Option Text
  pub timeout_secs : Option Text
  pub bearer_token : Option Text
  pub push : Option Text

abbrev pub timeout_of : Option Text → ℕ
unfolding atoi_u64
timeout_of none = 5
timeout_of (some s) = let n = atoi_u64 s in if ltb 0 n then n else 5

unfoldable pub config_of : Variables → RemoteUrl → RemoteConfig
unfolding env_s env_flag_set timeout_of
config_of vars url = record {
  url = url;
  timeout = timeout_of (env_s vars.timeout_secs);
  bearer_token = env_s vars.bearer_token;
  push_enabled = env_flag_set vars.push;
}

unfoldable pub config_from_env : Variables → Result (Option RemoteConfig)
unfolding env_s parse_http_url config_of
config_from_env vars = elim (env_s vars.remote_url) [
  | none ↦ ok none
  | some s ↦ parse_http_url s >>= (λ url. ok (some (config_of vars url)))
]
