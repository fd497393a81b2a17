-- ===== src/Registry/Access.antt =====
-- Who may write to the registry of contracts/flagged_accounts/src/lib.rs, and what its readers see.
use stellartrace.Prelude.{
  ◌≡◌, ◌≢◌, refl, sym, ap, ◌∙◌, Bool, true, false, not, Option, none, some, List, [], ◌∷◌,
  string_eq, ◌==◌, contains, if◌then◌else◌, if-true, arith,
}
use stellartrace.Prelude.HashMap.{remove, insert, get, get-insert, get-remove}
use stellartrace.Registry.Contract.{
  already_initialized, Address, Storage, Env, Outcome, done, error, trapped, ReasonCode, FlagRecord,
  not_flagged, initialize, set_admin, flag, unflag, is_flagged, get_flag, as_admin, is_some,
  empty_storage,
}

-- A call of an entry point that writes.
pub data Call : Type 0 where
  initializing : Address → Call
  setting_admin : Env → Address → Call
  flagging : Env → Address → ReasonCode → Call
  unflagging : Env → Address → Call

unfoldable pub perform : Storage → Call → Storage × Outcome
perform st (initializing admin) = initialize st admin
perform st (setting_admin env new_admin) = set_admin st env new_admin
perform st (flagging env account reason) = flag st env account reason
perform st (unflagging env account) = unflag st env account

abbrev pub perform_all : Storage → List Call → Storage
perform_all st [] = st
perform_all st (c ∷ cs) = perform_all (perform st c).0 cs

-- Whose authorization a call carries.
abbrev pub signers : Call → List Address
signers (initializing admin) = []
signers (setting_admin env new_admin) = env.authorized
signers (flagging env account reason) = env.authorized
signers (unflagging env account) = env.authorized

abbrev flag_set : Storage → Env → Address → ReasonCode → Storage
flag_set st env a reason = record {
  admin = st.admin;
  flags =
      insert a (record { reason = reason; flagged_at_ledger_timestamp = env.timestamp }) st.flags;
}

as_admin-refused :
    (st : Storage) (env : Env) (o : Option Address) (admin : Address) (body : Storage × Outcome)
    → o ≡ some admin
    → contains env.authorized admin ≡ false
    → as_admin st env o body ≡ (st, trapped)
as_admin-refused st env none admin body is lacks = absurd (ground arith)
as_admin-refused st env (some a) admin body is lacks =
    ground (arith, ap (contains env.authorized) (is_same a admin is))
  where
    is_same : (a b : Address) → some a ≡ some b → a ≡ b
    is_same a b e = cc

refused : (st : Storage) (r : Storage × Outcome) → r ≡ (st, trapped) → (r.0 ≡ st) × (r.1 ≢ done)
refused st r e = (ap (λ r. r.0) e, λ d. absurd (ground (arith, sym d ∙ ap (λ r. r.1) e)))

unstarted :
    (st : Storage) (r : Storage × Outcome)
    → r ≡ (st, error already_initialized)
    → (r.0 ≡ st) × (r.1 ≢ done)
unstarted st r e = (ap (λ r. r.0) e, λ d. absurd (ground (arith, sym d ∙ ap (λ r. r.1) e)))

-- Once there is an admin, a call that does not carry its authorization changes nothing, and is never
-- done.
pub unauthorized-unchanged :
    (st : Storage) (call : Call) (admin : Address)
    → st.admin ≡ some admin
    → contains (signers call) admin ≡ false
    → ((perform st call).0 ≡ st) × ((perform st call).1 ≢ done)
unfolding perform initialize set_admin flag unflag
unauthorized-unchanged st (initializing new) admin is lacks =
    unstarted st _ (if-true (is_some st.admin) _ _ (ap is_some is))
unauthorized-unchanged st (setting_admin env new_admin) admin is lacks =
    refused st _ (as_admin-refused st env st.admin admin _ is lacks)
unauthorized-unchanged st (flagging env account reason) admin is lacks =
    refused st _ (as_admin-refused st env st.admin admin _ is lacks)
unauthorized-unchanged st (unflagging env account) admin is lacks =
    refused st _ (as_admin-refused st env st.admin admin _ is lacks)

abbrev chosen : Bool → Storage × Outcome → Storage × Outcome → Storage × Outcome
chosen b yes_then otherwise = if b then yes_then else otherwise

-- What a call makes of the flag of an account, by its outcome.
abbrev pub flag_after : Call → Outcome → Address → Option FlagRecord → Option FlagRecord
flag_after (flagging env account reason) done a old =
    if account == a
    then some (record { reason = reason; flagged_at_ledger_timestamp = env.timestamp })
    else old
flag_after (unflagging env account) done a old = if account == a then none else old
flag_after _ _ a old = old

-- A call that is done sets or clears the flag of the account that it names, with the time of the
-- ledger, and leaves the others; one that fails or traps leaves all. An account is seen as flagged
-- just if it has a flag.
pub get_flag-perform :
    (st : Storage) (call : Call) (account : Address)
    → (get_flag (perform st call).0 account
        ≡ flag_after call (perform st call).1 account (get_flag st account))
      × (is_flagged st account ≡ is_some (get_flag st account))
unfolding perform initialize set_admin flag unflag get_flag is_flagged
get_flag-perform st (initializing admin) account = (started (is_some st.admin), refl)
  where
    started :
        (b : Bool)
        → get account
            (chosen b
              (st, error already_initialized)
              (record { admin = some admin; flags = st.flags }, done)).0.flags
          ≡ get account st.flags
    started true = refl
    started false = refl
get_flag-perform st (setting_admin env new_admin) account = (by_admin st.admin, refl)
  where
    guarded :
        (b : Bool)
        → get account
            (chosen b
              (record { admin = some new_admin; flags = st.flags }, done)
              (st, trapped)).0.flags
          ≡ get account st.flags
    guarded true = refl
    guarded false = refl

    by_admin :
        (o : Option Address)
        → get account
            (as_admin st env o (record { admin = some new_admin; flags = st.flags }, done)).0.flags
          ≡ get account st.flags
    by_admin none = refl
    by_admin (some admin) = guarded (contains env.authorized admin)
get_flag-perform st (flagging env a reason) account = (by_admin st.admin, refl)
  where
    changed : Storage × Outcome
    changed = (flag_set st env a reason, done)

    guarded :
        (b : Bool)
        → get account (chosen b changed (st, trapped)).0.flags
          ≡ flag_after
              (flagging env a reason)
              (chosen b changed (st, trapped)).1
              account
              (get account st.flags)
    guarded true = get-insert a account _ st.flags
    guarded false = refl

    by_admin :
        (o : Option Address)
        → get account (as_admin st env o changed).0.flags
          ≡ flag_after
              (flagging env a reason)
              (as_admin st env o changed).1
              account
              (get account st.flags)
    by_admin none = refl
    by_admin (some admin) = guarded (contains env.authorized admin)
get_flag-perform st (unflagging env a) account = (by_admin st.admin, refl)
  where
    removed : Bool → Storage × Outcome
    removed b =
        if b
        then (st, error not_flagged)
        else (record { admin = st.admin; flags = remove a st.flags }, done)

    cleared :
        (b : Bool)
        → get account (removed b).0.flags
          ≡ flag_after (unflagging env a) (removed b).1 account (get account st.flags)
    cleared true = refl
    cleared false = get-remove a account st.flags

    guarded :
        (b c : Bool)
        → get account (chosen b (removed c) (st, trapped)).0.flags
          ≡ flag_after
              (unflagging env a)
              (chosen b (removed c) (st, trapped)).1
              account
              (get account st.flags)
    guarded true c = cleared c
    guarded false c = refl

    by_admin :
        (o : Option Address)
        → get account (as_admin st env o (removed (not (is_some (get a st.flags))))).0.flags
          ≡ flag_after
              (unflagging env a)
              (as_admin st env o (removed (not (is_some (get a st.flags))))).1
              account
              (get account st.flags)
    by_admin none = refl
    by_admin (some admin) = guarded (contains env.authorized admin) (not (is_some (get a st.flags)))

chosen-kept :
    (b : Bool) (x y : Storage × Outcome)
    → is_some x.0.admin ≡ true
    → is_some y.0.admin ≡ true
    → is_some (chosen b x y).0.admin ≡ true
chosen-kept true x y h k = h
chosen-kept false x y h k = k

as_admin-kept :
    (st : Storage) (env : Env) (o : Option Address) (body : Storage × Outcome)
    → is_some st.admin ≡ true
    → is_some body.0.admin ≡ true
    → is_some (as_admin st env o body).0.admin ≡ true
as_admin-kept st env none body h k = h
as_admin-kept st env (some admin) body h k =
    chosen-kept (contains env.authorized admin) body (st, trapped) k h

-- An admin once set stays set, whatever is called and whoever signs.
admin-kept :
    (st : Storage) (call : Call)
    → is_some st.admin ≡ true
    → is_some (perform st call).0.admin ≡ true
unfolding perform initialize set_admin flag unflag is_flagged
admin-kept st (initializing admin) h = chosen-kept (is_some st.admin) _ _ h refl
admin-kept st (setting_admin env new_admin) h = as_admin-kept st env st.admin _ h refl
admin-kept st (flagging env account reason) h = as_admin-kept st env st.admin _ h h
admin-kept st (unflagging env account) h =
    as_admin-kept st env st.admin _ h (chosen-kept (not (is_some (get account st.flags))) _ _ h h)

perform_all-kept :
    (calls : List Call) (st : Storage)
    → is_some st.admin ≡ true
    → is_some (perform_all st calls).admin ≡ true
perform_all-kept [] st h = h
perform_all-kept (c ∷ cs) st h = perform_all-kept cs (perform st c).0 (admin-kept st c h)

-- Only the first `initialize` takes effect: after it and any other calls, another one fails and changes
-- nothing.
pub initialize-once :
    (admin later : Address) (calls : List Call)
    → let st = perform_all (initialize empty_storage admin).0 calls in
      initialize st later ≡ (st, error already_initialized)
unfolding initialize
initialize-once admin later calls =
    if-true _ _ _ (perform_all-kept calls (record { admin = some admin; flags = [] }) refl)
