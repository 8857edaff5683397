-- ===== src/Access/Accounts.antt =====
-- The table of service accounts after `EnsureRBAC` of internal/objects/rbac.go has ensured several.
use sesame_operator.Prelude.{
  String, List, [], ◌∷◌, Option, none, some, ◌≡◌, refl, ap, ◌==◌, eq_iff, Bool-cases, inl, inr,
}
use sesame_operator.Api.{Sesame}
use sesame_operator.Kube.{ServiceAccount}
use sesame_operator.Cluster.{Client}
use sesame_operator.Owned.Tables.{Table, put_elsewhere}
use sesame_operator.Owned.Refines.{written}
use sesame_operator.World.{account_key}
use sesame_operator.Owned.Settles.{IsSettled, rewritten-some, written-IsSettled}
use sesame_operator.Equality.{Semantic}
use sesame_operator.Equality.Settles.{the_answer}
use sesame_operator.Equality.Objects.{service_account_config_changed}
use sesame_operator.Access.{desired_service_account}
use sesame_operator.Access.Ensure.{service_accounts}
use sesame_operator.Access.Rules.{with_account, with_accounts}
use sesame_operator.Access.Comparisons.{accounts-Settling}

module _ {C : Type 0} (cli : Client C) (eq : Semantic) (s : Sesame) where
  -- There is nothing to write to the account of a name.
  abbrev pub AccountIsSettled : String → Table ServiceAccount → Type 0
  AccountIsSettled name t =
      IsSettled (service_accounts cli eq) s (desired_service_account name s)
        (accounts-Settling eq (desired_service_account name s)) account_key t

  -- Where an account is written, it is the desired one.
  account_written :
      (name : String) (o : Option ServiceAccount) (u : ServiceAccount)
      → written (service_accounts cli eq) s (desired_service_account name s) o ≡ some u
      → u ≡ desired_service_account name s
  unfolding service_account_config_changed
  account_written name none u h = cc
  account_written name (some current) u h = the_answer _ _ (
      rewritten-some (service_accounts cli eq) s (desired_service_account name s)
        (accounts-Settling eq (desired_service_account name s)) current u h)

  with_account-AccountIsSettled :
      (name : String) (t : Table ServiceAccount)
      → AccountIsSettled name (with_account cli eq s name t)
  unfolding desired_service_account
  with_account-AccountIsSettled name t =
      written-IsSettled (service_accounts cli eq) s (desired_service_account name s)
        (accounts-Settling eq (desired_service_account name s)) account_key t
        (λ u h. ap account_key (account_written name _ u h))

  -- A settled account stays settled when another is ensured.
  with_account_settled :
      (name other : String) (t : Table ServiceAccount)
      → AccountIsSettled name t
      → AccountIsSettled name (with_account cli eq s other t)
  unfolding desired_service_account
  with_account_settled name other t h = elim (Bool-cases (other == name)) [
    | inl e ↦ rw ((eq_iff other name).0 e) (with_account-AccountIsSettled name t)
    | inr e ↦
        rw
          (put_elsewhere account_key s.spec.namespace.name name other _ t
            (λ u g. ap account_key (account_written other _ u g)) e)
          h
  ]

  abbrev pub AccountsAreSettled : List String → Table ServiceAccount → Type 0
  AccountsAreSettled [] t = Unit
  AccountsAreSettled (name ∷ names) t = AccountIsSettled name t × AccountsAreSettled names t

  with_accounts_settled :
      (name : String) (names : List String) (t : Table ServiceAccount)
      → AccountIsSettled name t
      → AccountIsSettled name (with_accounts cli eq s names t)
  with_accounts_settled name [] t h = h
  with_accounts_settled name (other ∷ names) t h =
      with_accounts_settled name names _ (with_account_settled name other t h)

  pub with_accounts_settles :
      (names : List String) (t : Table ServiceAccount)
      → AccountsAreSettled names (with_accounts cli eq s names t)
  with_accounts_settles [] t = tt
  with_accounts_settles (name ∷ names) t = (
    with_accounts_settled name names _ (with_account-AccountIsSettled name t),
    with_accounts_settles names _,
  )

  pub with_accounts_stays :
      (names : List String) (t : Table ServiceAccount)
      → AccountsAreSettled names t
      → with_accounts cli eq s names t ≡ t
  unfolding desired_service_account
  with_accounts_stays [] t h = refl
  with_accounts_stays (name ∷ names) t (h, hs) = rw h (with_accounts_stays names t hs)
