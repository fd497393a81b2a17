-- ===== src/Api/Auth.antt =====
-- crates/api/src/auth.rs: the bearer tokens and the extractor `AuthUser`. The header is what axum
-- gives of it as text, if there is one and it is text.
use Prim.Native.Char.{code}
use stellartrace.Prelude.{
  not, filter, List, [], ◌∷◌, ◌==◌, Option, none, some, String, string_eq, nat_beq, if◌then◌else◌,
}
use stellartrace.Prelude.HashMap.{HashMap, get, insert}
use stellartrace.Prelude.Split.{splitn, split, trim, is_empty_text}
use stellartrace.Prelude.Outcome.{Result, ok, fail}
use stellartrace.Common.{Role, viewer, investigator, admin}

pub record AuthUser : Type 0 where
  pub investigator_id : String
  pub role : Role

pub record AuthRegistry : Type 0 where
  pub tokens : HashMap String AuthUser

pub data AuthError : Type 0 where
  missing invalid : AuthError

-- the role of an entry; another word makes the entry be skipped
abbrev pub role_of : String → Option Role
role_of word =
    if word == "admin"
    then some admin
    else if word == "investigator"
    then some investigator
    else if word == "viewer"
    then some viewer
    else none

abbrev pub add_user :
    HashMap String AuthUser → String → String → Option Role → HashMap String AuthUser
add_user tokens token investigator_id none = tokens
add_user tokens token investigator_id (some role) =
    insert token (record { investigator_id = investigator_id; role = role }) tokens

-- the three parts of an entry; an entry of fewer is skipped
abbrev pub add_parts : HashMap String AuthUser → List String → HashMap String AuthUser
add_parts tokens (token ∷ role ∷ investigator_id ∷ []) =
    add_user tokens token investigator_id (role_of role)
add_parts tokens _ = tokens

-- The code of ':' is 58, and that of ',' is 44.
abbrev pub parts_of : String → List String
parts_of entry = splitn 3 58 (trim entry)

abbrev pub entries_of : String → List String
entries_of raw = filter (λ s. not (is_empty_text (trim s))) (split 44 raw)

unfoldable pub add_entries : List String → HashMap String AuthUser → HashMap String AuthUser
add_entries [] tokens = tokens
add_entries (entry ∷ entries) tokens = add_entries entries (add_parts tokens (parts_of entry))

-- `AuthRegistry::from_env`, with the variable STELLARTRACE_API_TOKENS if it can be read
unfoldable pub from_env : Option String → AuthRegistry
unfolding add_entries
from_env (some raw) = record { tokens = add_entries (entries_of raw) [] }
from_env none = record {
  tokens =
      insert "dev-investigator-token"
        (record { investigator_id = "dev-investigator"; role = investigator }) [];
}

abbrev pub authenticate : AuthRegistry → String → Option AuthUser
authenticate auth token = get token auth.tokens

-- `str::strip_prefix`
unfoldable pub strip_prefix : String → String → Option String
strip_prefix String.[] s = some s
strip_prefix (String.◌∷◌ c p) String.[] = none
strip_prefix (String.◌∷◌ c p) (String.◌∷◌ d s) =
    let rest = strip_prefix p s in if nat_beq (code c) (code d) then rest else none

abbrev pub known_user : Option AuthUser → Result AuthUser AuthError
known_user none = fail invalid
known_user (some user) = ok user

abbrev pub user_of_token : AuthRegistry → Option String → Result AuthUser AuthError
user_of_token auth none = fail missing
user_of_token auth (some token) = known_user (authenticate auth token)

-- `from_request_parts`
unfoldable pub from_request_parts : AuthRegistry → Option String → Result AuthUser AuthError
unfolding strip_prefix
from_request_parts auth none = fail missing
from_request_parts auth (some header) = user_of_token auth (strip_prefix "Bearer " header)
