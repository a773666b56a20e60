-- ===== src/Manager/Connect/Identity.antt =====
-- With what the manager says who it is: a user's name and password, or the machine's certificate.
use virt_who.Base.Method.{success}
use virt_who.Base.{
  String, ◌≡◌, subst, ◌⊎◌, inl, inr, Bool, true, false, ◌&&◌, none, some, [], ◌∷◌, is_empty,
  if◌then◌else◌, arith, ◌==◌, string_eq, Result, raised, ok, >>=-eq-ok, ◌>>=◌,
}
use virt_who.Base.Dict.{Dict, lookup, insert, lookup-insert}
use virt_who.Config.Value.{Value, none_value, not_set, str, truthy, to_int}
use virt_who.Config.Section.{Section, get_item}
use virt_who.Manager.{open_connection, ping, Rhsm, Session}
use virt_who.Manager.Keeps.{from_result-success, or_unregistered-success}
use virt_who.Manager.Arguments.{
  server_arguments, credentials, adopt_option, adopt_options, gather_arguments, authenticate,
  correlate,
}
use virt_who.Manager.Connect.{confirm, open_with, connect_as, connect}

-- Arguments that have neither a user nor a certificate.
abbrev Anonymous : Dict Value → Type 0
Anonymous kwargs =
    (lookup "username" kwargs ≡ none)
    × (lookup "password" kwargs ≡ none)
    × (lookup "cert_file" kwargs ≡ none)
    × (lookup "key_file" kwargs ≡ none)

-- The arguments name a user with a password, or the files of a certificate that can be read, and
-- never both.
abbrev pub Identified : Rhsm → Value → Value → Dict Value → Type 0
Identified rhsm user password kwargs =
    ((truthy user && truthy password) ≡ true)
      × (lookup "username" kwargs ≡ some user)
      × (lookup "password" kwargs ≡ some password)
      × (lookup "cert_file" kwargs ≡ none)
      × (lookup "key_file" kwargs ≡ none)
    ⊎ ((truthy user && truthy password) ≡ false)
      × (rhsm.cert_readable ≡ true)
      × (lookup "username" kwargs ≡ none)
      × (lookup "password" kwargs ≡ none)
      × (lookup "cert_file" kwargs ≡ some (str rhsm.cert_file))
      × (lookup "key_file" kwargs ≡ some (str rhsm.key_file))

module _ {M : Type 0} (config : Section M) where
  adopt_options-none :
      (k : String) (kwargs kwargs' : Dict Value)
      → lookup k kwargs ≡ none
      → adopt_options config kwargs ≡ ok kwargs'
      → lookup k kwargs' ≡ none
  unfolding adopt_options lookup
  adopt_options-none k [] kwargs' u e = ground arith
  adopt_options-none k ((j, v) ∷ kwargs) kwargs' u e =
      let (w, adopted, more) =
        >>=-eq-ok (adopt_option config j v)
          (λ w. adopt_options config kwargs >>= λ rest. ok ((j, w) ∷ rest)) e in
      let (rest, others, whole) =
        >>=-eq-ok (adopt_options config kwargs) (λ rest. ok ((j, w) ∷ rest)) more in
      ground (arith, adopt_options-none k kwargs rest, others, whole, u)

server_arguments-Anonymous :
    (rhsm : Rhsm) (kwargs : Dict Value) → server_arguments rhsm ≡ ok kwargs → Anonymous kwargs
unfolding server_arguments lookup
server_arguments-Anonymous rhsm kwargs e =
    let (port, read, whole) = >>=-eq-ok (to_int (str (rhsm.server_option "port"))) _ e in
    ground (arith, whole)

lookup-insert_pair :
    (i j k : String) (v w : Value) (d : Dict Value)
    → lookup i (insert j v (insert k w d))
      ≡ (if j == i then some v else if k == i then some w else lookup i d)
lookup-insert_pair i j k v w d =
    ground (arith, lookup-insert j i v (insert k w d), lookup-insert k i w d)

authenticate-Identified :
    (rhsm : Rhsm) (user password : Value) (kwargs kwargs' : Dict Value)
    → Anonymous kwargs
    → authenticate rhsm kwargs user password ≡ some kwargs'
    → Identified rhsm user password kwargs'
unfolding authenticate
authenticate-Identified rhsm user password kwargs kwargs' (no_user, no_password, no_cert, no_key)
      e =
    let with_user : (k : String) → _ =
      λ k. lookup-insert_pair k "password" "username" password user kwargs in
    let with_files : (k : String) → _ = λ k.
      lookup-insert_pair k "key_file" "cert_file" (str rhsm.key_file) (str rhsm.cert_file) kwargs in
    ground (
      arith,
      with_user "username",
      with_user "password",
      with_user "cert_file",
      with_user "key_file",
      with_files "username",
      with_files "password",
      with_files "cert_file",
      with_files "key_file",
    )

abbrev nobody_if : Bool → Value × Value → Value × Value
nobody_if true given = (none_value, none_value)
nobody_if false given = given

-- What is read of a user and a password: nothing, if the section has no values.
abbrev identity : {M : Type 0} → Section M → Value × Value
identity config = nobody_if (is_empty config.values) (credentials config)

-- Whether the section has values decides what becomes of the arguments.
gathered_cases :
    {M : Type 0} (config : Section M) (b : Bool) (served kwargs : Dict Value)
    (user password : Value)
    → if◌then◌else◌ {A = Result (Dict Value × Value × Value)} b
        (ok (served, none_value, none_value))
        (adopt_options config served >>= λ adopted.
          ok (adopted, (credentials config).0, (credentials config).1))
      ≡ ok (kwargs, user, password)
    → ((served ≡ kwargs) ⊎ (adopt_options config served ≡ ok kwargs))
      × ◌≡◌ {A = Value × Value} (user, password) (nobody_if b (credentials config))
gathered_cases config true served kwargs user password e = ground (arith, e)
gathered_cases config false served kwargs user password e =
    let (adopted, made, whole) = >>=-eq-ok (adopt_options config served) _ e in
    ground (arith, made, whole)

still_none :
    {M : Type 0} (config : Section M) (k : String) (served kwargs : Dict Value)
    → (served ≡ kwargs) ⊎ (adopt_options config served ≡ ok kwargs)
    → lookup k served ≡ none
    → lookup k kwargs ≡ none
still_none config k served kwargs (inl same) u = subst (λ d. lookup k d ≡ none) same u
still_none config k served kwargs (inr adopted) u =
    adopt_options-none config k served kwargs u adopted

gather_arguments-Anonymous :
    {M : Type 0} (config : Section M) (rhsm : Rhsm) (kwargs : Dict Value) (user password : Value)
    → gather_arguments config rhsm ≡ ok (kwargs, user, password)
    → Anonymous kwargs × ◌≡◌ {A = Value × Value} (user, password) (identity config)
unfolding gather_arguments
gather_arguments-Anonymous config rhsm kwargs user password e =
    let (served, read, more) = >>=-eq-ok (server_arguments rhsm) _ e in
    let (no_user, no_password, no_cert, no_key) = server_arguments-Anonymous rhsm served read in
    let (made, given) =
      gathered_cases config (is_empty config.values) served kwargs user password more in
    (
      (
        still_none config "username" served kwargs made no_user,
        still_none config "password" served kwargs made no_password,
        still_none config "cert_file" served kwargs made no_cert,
        still_none config "key_file" served kwargs made no_key,
      ),
      given,
    )

correlate-Identified :
    (rhsm : Rhsm) (user password : Value) (kwargs : Dict Value)
    → Identified rhsm user password kwargs
    → Identified rhsm user password (correlate rhsm kwargs)
unfolding correlate
correlate-Identified rhsm user password kwargs identified =
    let added : (k : String) → _ =
      λ k. lookup-insert "correlation_id" k (str rhsm.correlation_id) kwargs in
    ground
      (arith, added "username", added "password", added "cert_file", added "key_file", identified)

open_with-success :
    (rhsm : Rhsm) (kwargs : Dict Value) (s s' : Session)
    → open_with rhsm kwargs s ≡ (success tt, s')
    → (s'.calls ≡ ping ∷ open_connection kwargs ∷ s.calls) × (s'.connection ≡ some kwargs)
unfolding open_with confirm
open_with-success rhsm kwargs s s' e = ground arith

-- What a section says of an option: nothing, if it has no values or not the option, or if the option
-- is not set.
abbrev pub said : {M : Type 0} → Section M → String → Value
said config key = if is_empty config.values then none_value else elim (get_item config key) [
  | raised e ↦ none_value
  | ok none_value ↦ none_value
  | ok not_set ↦ none_value
  | ok v ↦ v
]

identity-said :
    {M : Type 0} (rhsm : Rhsm) (config : Section M) (kwargs : Dict Value)
    → Identified rhsm (identity config).0 (identity config).1 kwargs
    → Identified rhsm (said config "rhsm_username") (said config "rhsm_password") kwargs
unfolding credentials truthy
identity-said rhsm config kwargs identified = ground (arith, identified)

-- A connection that is made identifies itself by the user name and the password of the section, if it
-- has both, else by the files of the certificate, which can then be read, and never by both; its
-- calls are the opening with these arguments and the question for the status.
pub connect-Identified :
    {M : Type 0} (rhsm : Rhsm) (config : Section M) (s s' : Session)
    → connect rhsm config s ≡ (success tt, s')
    → (kwargs : Dict Value) × Identified rhsm
        (said config "rhsm_username")
        (said config "rhsm_password")
        kwargs
      × (s'.calls ≡ ping ∷ open_connection kwargs ∷ s.calls)
      × (s'.connection ≡ some kwargs)
unfolding connect
connect-Identified rhsm config s s' e =
    let ((kwargs, user, password), gathered, later) =
      from_result-success (gather_arguments config rhsm) (connect_as rhsm) tt s s' e in
    let (kwargs', chosen, opened) =
      or_unregistered-success (authenticate rhsm kwargs user password)
        (λ kwargs'. open_with rhsm (correlate rhsm kwargs')) tt s s' later in
    let (anonymous, given) = gather_arguments-Anonymous config rhsm kwargs user password gathered in
    let (calls, connection) = open_with-success rhsm (correlate rhsm kwargs') s s' opened in
    (
      correlate rhsm kwargs',
      identity-said rhsm config (correlate rhsm kwargs') (
          subst (λ (u : Value × Value). Identified rhsm u.0 u.1 (correlate rhsm kwargs')) given
            (correlate-Identified rhsm user password kwargs'
              (authenticate-Identified rhsm user password kwargs kwargs' anonymous chosen))),
      calls,
      connection,
    )
