-- ===== src/Api/Tokens.antt =====
-- Whom the registry of crates/api/src/auth.rs knows.
use mathlib.Core.List.{Mem, mem-cons_self, mem-cons_of_mem}
use mathlib.Core.Option
use stellartrace.Prelude.{
  ◌≡◌, ◌≢◌, ◌⊎◌, inl, inr, refl, sym, ap, ◌∙◌, Option, none, some, String, List, [], ◌∷◌, string_eq,
  ◌==◌, filter-mem, Bool-cases, if-true, if-false,
}
use stellartrace.Prelude.HashMap.{HashMap, get, get-insert, get-nil}
use stellartrace.Prelude.Split.{split}
use stellartrace.Common.{Role}
use stellartrace.Api.Auth.{
  AuthUser, role_of, add_user, add_parts, parts_of, entries_of, add_entries, from_env, authenticate,
}

-- An entry that gives the token to the user.
pub record Grants (entries : List String) (token : String) (user : AuthUser) : Type 0 where
  pub entry : String
  pub role : String
  pub listed : Mem entry entries
  pub parts : parts_of entry ≡ token ∷ role ∷ user.investigator_id ∷ []
  pub known : role_of role ≡ some user.role

abbrev user_of : String → Role → AuthUser
user_of investigator_id role = record { investigator_id = investigator_id; role = role }

later :
    {entries : List String} {token : String} {user : AuthUser} (e : String)
    → Grants entries token user
    → Grants (e ∷ entries) token user
later e g = record {
  entry = g.entry;
  role = g.role;
  listed = mem-cons_of_mem e g.listed;
  parts = g.parts;
  known = g.known;
}

add_parts-get :
    (tokens : HashMap String AuthUser) (entry : String) (parts : List String) (token : String)
    (user : AuthUser)
    → parts_of entry ≡ parts
    → get token (add_parts tokens parts) ≡ some user
    → (get token tokens ≡ some user)
      ⊎ ((entries : List String) → Grants (entry ∷ entries) token user)
add_parts-get tokens entry [] token user is found = inl found
add_parts-get tokens entry (a ∷ []) token user is found = inl found
add_parts-get tokens entry (a ∷ b ∷ []) token user is found = inl found
add_parts-get tokens entry (t ∷ r ∷ i ∷ []) token user is found = by_role (role_of r) refl found
  where
    granted :
        (role : Role)
        → role_of r ≡ some role
        → t ≡ token
        → user_of i role ≡ user
        → (entries : List String) → Grants (entry ∷ entries) token user
    granted role known same whose entries = record {
      entry = entry;
      role = r;
      listed = mem-cons_self;
      parts =
          is
          ∙ ap (λ x. x ∷ r ∷ i ∷ []) same
          ∙ ap (λ (u : AuthUser). token ∷ r ∷ u.investigator_id ∷ []) whose;
      known = known ∙ ap (λ (u : AuthUser). some u.role) whose;
    }

    by_role :
        (o : Option Role)
        → role_of r ≡ o
        → get token (add_user tokens t i o) ≡ some user
        → (get token tokens ≡ some user)
          ⊎ ((entries : List String) → Grants (entry ∷ entries) token user)
    by_role none known found = inl found
    by_role (some role) known found = elim (Bool-cases (t == token)) [
      | inl e ↦ inr (
          granted role known ((string_eq.test_iff t token).0 e) (
            Option.some-injective (user_of i role) user
              (sym (get-insert t token (user_of i role) tokens ∙ if-true _ _ _ e) ∙ found)))
      | inr e ↦ inl (sym (get-insert t token (user_of i role) tokens ∙ if-false _ _ _ e) ∙ found)
    ]
add_parts-get tokens entry (a ∷ b ∷ c ∷ d ∷ rest) token user is found = inl found

add_entries-get :
    (entries : List String) (tokens : HashMap String AuthUser) (token : String) (user : AuthUser)
    → get token (add_entries entries tokens) ≡ some user
    → (get token tokens ≡ some user) ⊎ Grants entries token user
unfolding add_entries
add_entries-get [] tokens token user found = inl found
add_entries-get (e ∷ entries) tokens token user found =
    elim (add_entries-get entries (add_parts tokens (parts_of e)) token user found) [
      | inr g ↦ inr (later e g)
      | inl earlier ↦ elim (add_parts-get tokens e (parts_of e) token user refl earlier) [
        | inl before ↦ inl before
        | inr g ↦ inr (g entries)
      ]
    ]

-- With the variable set, a token is accepted only as one of its comma-separated entries says, of the
-- form `token:role:investigator_id` with a known role; the user has that role and identifier.
pub authenticate-Grants :
    (raw token : String) (user : AuthUser)
    → authenticate (from_env (some raw)) token ≡ some user
    → Grants (split 44 raw) token user
unfolding from_env
authenticate-Grants raw token user found =
    elim (add_entries-get (entries_of raw) [] token user found) [
      | inl nowhere ↦ absurd (none_some (sym (get-nil token) ∙ nowhere))
      | inr g ↦ record {
        entry = g.entry;
        role = g.role;
        listed = (filter-mem _ (split 44 raw) g.listed).0;
        parts = g.parts;
        known = g.known;
      }
    ]
  where
    none_some : none ≢ some user
    none_some e = cc
