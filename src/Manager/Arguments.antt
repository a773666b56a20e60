-- ===== src/Manager/Arguments.antt =====
-- The first part of `_connect`: the arguments of `UEPConnection`, from rhsm.conf and the options of a
-- section.
use virt_who.Base.{
  String, Bool, true, false, not, ◌&&◌, [], ◌∷◌, is_empty, if◌then◌else◌, ◌==◌, string_eq, Option,
  none, some, Result, ok, raised, ◌>>=◌,
}
use virt_who.Base.Chars.{chars}
use virt_who.Base.Dict.{Dict, lookup, insert}
use virt_who.Config.Value.{Value, none_value, not_set, int, str, truthy, to_int}
use virt_who.Config.Section.{Section, get_item}
use virt_who.Manager.{Rhsm}

-- `kwargs_to_config`
abbrev pub kwargs_to_config : Dict String
kwargs_to_config =
    ("host", "rhsm_hostname")
    ∷ ("ssl_port", "rhsm_port")
    ∷ ("handler", "rhsm_prefix")
    ∷ ("proxy_hostname", "rhsm_proxy_hostname")
    ∷ ("proxy_port", "rhsm_proxy_port")
    ∷ ("proxy_user", "rhsm_proxy_user")
    ∷ ("proxy_password", "rhsm_proxy_password")
    ∷ ("no_proxy", "rhsm_no_proxy")
    ∷ ("insecure", "rhsm_insecure")
    ∷ []

-- `kwargs` before the options of the section: `int` of the port may raise.
unfoldable pub server_arguments : Rhsm → Result (Dict Value)
server_arguments rhsm = do
  port ← to_int (str (rhsm.server_option "port"))
  let option = λ (name : String). str (rhsm.server_option name)
  ok (
      ("host", option "hostname")
      ∷ ("ssl_port", int port)
      ∷ ("handler", option "prefix")
      ∷ ("proxy_hostname", option "proxy_hostname")
      ∷ ("proxy_port", option "proxy_port")
      ∷ ("proxy_user", option "proxy_user")
      ∷ ("proxy_password", option "proxy_password")
      ∷ ("no_proxy", option "no_proxy")
      ∷ ("insecure", option "insecure")
      ∷ [])

-- `value != NotSetSentinel and value is not None`
abbrev pub is_given : Value → Bool
is_given none_value = false
is_given not_set = false
is_given _ = true

-- `NotSetSentinel` is taken for `None`.
abbrev pub unset : Value → Value
unset v = if is_given v then v else none_value

module _ {M : Type 0} (config : Section M) where
  -- The user name and the password: a missing password leaves the user name as it was read.
  unfoldable pub credentials : Value × Value
  credentials = elim (get_item config "rhsm_username") [
    | raised e ↦ (none_value, none_value)
    | ok user ↦ elim (get_item config "rhsm_password") [
      | raised e ↦ (unset user, none_value)
      | ok password ↦ (unset user, unset password)
    ]
  ]

  -- What an argument becomes by a value of the section.
  unfoldable pub adopt_value : String → Value → Value → Result Value
  adopt_value key from_config v =
      if not (is_given from_config)
      then ok v
      else if key == "ssl_port"
      then (do port ← to_int from_config; ok (int port))
      else ok from_config

  -- A round of the loop over `kwargs`.
  unfoldable pub adopt_option : String → Value → Result Value
  unfolding adopt_value
  adopt_option key v = elim (lookup key kwargs_to_config) [
    | none ↦ ok v
    | some option ↦ elim (get_item config option) [
      | raised e ↦ ok v
      | ok from_config ↦ adopt_value key from_config v
    ]
  ]

  unfoldable pub adopt_options : Dict Value → Result (Dict Value)
  unfolding adopt_option
  adopt_options [] = ok []
  adopt_options ((key, v) ∷ kwargs) = do
    w ← adopt_option key v
    rest ← adopt_options kwargs
    ok ((key, w) ∷ rest)

  -- The arguments and the credentials: a section without values counts as no section.
  unfoldable pub gather_arguments : Rhsm → Result (Dict Value × Value × Value)
  unfolding server_arguments credentials adopt_options
  gather_arguments rhsm = do
    kwargs ← server_arguments rhsm
    if is_empty config.values then ok (kwargs, none_value, none_value) else (do
      kwargs' ← adopt_options kwargs
      let (user, password) = credentials
      ok (kwargs', user, password))

-- `if rhsm_username and rhsm_password`: the arguments to authenticate with, or none if the certificate
-- cannot be read.
unfoldable pub authenticate : Rhsm → Dict Value → Value → Value → Option (Dict Value)
authenticate rhsm kwargs user password =
    if truthy user && truthy password
    then some (insert "password" password (insert "username" user kwargs))
    else if not rhsm.cert_readable
    then none
    else some
        (insert "key_file" (str rhsm.key_file) (insert "cert_file" (str rhsm.cert_file) kwargs))

unfoldable pub correlate : Rhsm → Dict Value → Dict Value
correlate rhsm kwargs =
    if is_empty (chars rhsm.correlation_id)
    then kwargs
    else insert "correlation_id" (str rhsm.correlation_id) kwargs
