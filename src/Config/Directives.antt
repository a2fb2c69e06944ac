-- ===== src/Config/Directives.antt =====
-- The configuration of sshd, as sshd's parser reads it, before it expands %-tokens in a value.
use familiar_fleet.Base.{
  ℕ, Bool, true, false, ◌≡◌, ◌≢◌, Option, none, some, List, [], ◌∷◌, ◌++◌, Text, codes, nat_eq,
  text_eq, ◌==◌, eq_iff, all, arith, refl, if◌then◌else◌, map, ap, ◌∙◌,
}
use familiar_fleet.Text.{split, itoa, is_digit}
use familiar_fleet.Text.Bytes.{itoa-ne, is_not, weaken-all, all-append, split-join_with, itoa-all}
use familiar_fleet.State.{Paths}
use familiar_fleet.State.Grammar.{match_head, match_user, is_user_byte}
use familiar_fleet.State.Safe.{match_user-all}
use familiar_fleet.Config.{escape, sshd_quote, sshd_lines, sshd_config_text}
use familiar_fleet.Config.Quoting.{unquote, unquote-sshd_quote}

-- A directive of sshd_config: its keyword and its argument.
abbrev pub Directive : Type 0
Directive = Text × Text

-- An argument, which may stand in double quotes.
abbrev pub read_argument : Text → Option Text
read_argument [] = none
read_argument (c ∷ s) = if c == 34 then unquote (c ∷ s) else some (c ∷ s)

abbrev with_keyword : Text → Option Text → Option Directive
with_keyword k none = none
with_keyword k (some a) = some (k, a)

-- The value of a keyword: `ForceCommand` keeps the rest of the line as it stands, its quotes included,
-- for the shell of the user; any other keyword reads an argument.
abbrev pub read_value : Text → Text → Option Directive
read_value k s = if k == codes "ForceCommand" then some (k, s) else with_keyword k (read_argument s)

-- A line: the keyword up to the first space, and the value behind it.
unfoldable pub read_line : Text → Text → Option Directive
read_line k [] = none
read_line k (c ∷ s) =
    let rest = read_line (k ++ c ∷ []) s in if c == b' ' then read_value k s else rest

-- What sshd is to be told.
abbrev pub directives : Paths → Text → ℕ → List Directive
directives paths local_user port =
    (codes "AddressFamily", codes "inet")
    ∷ (codes "ListenAddress", codes "127.0.0.1")
    ∷ (codes "Port", itoa port)
    ∷ (codes "HostKey", paths.host_key)
    ∷ (codes "PidFile", paths.sshd_pid)
    ∷ (codes "AuthorizedKeysFile", paths.authorized_keys)
    ∷ (codes "AllowUsers", local_user)
    ∷ (codes "AuthenticationMethods", codes "publickey")
    ∷ (codes "PubkeyAuthentication", codes "yes")
    ∷ (codes "PasswordAuthentication", codes "no")
    ∷ (codes "KbdInteractiveAuthentication", codes "no")
    ∷ (codes "ChallengeResponseAuthentication", codes "no")
    ∷ (codes "PermitEmptyPasswords", codes "no")
    ∷ (codes "UsePAM", codes "no")
    ∷ (codes "PermitRootLogin", codes "no")
    ∷ (codes "StrictModes", codes "yes")
    ∷ (codes "AllowAgentForwarding", codes "no")
    ∷ (codes "AllowTcpForwarding", codes "no")
    ∷ (codes "GatewayPorts", codes "no")
    ∷ (codes "X11Forwarding", codes "no")
    ∷ (codes "PermitTunnel", codes "no")
    ∷ (codes "PermitTTY", codes "no")
    ∷ (codes "PermitUserEnvironment", codes "no")
    ∷ (codes "PermitUserRC", codes "no")
    ∷ (codes "ForceCommand", sshd_quote paths.ssh_bridge)
    ∷ (codes "LogLevel", codes "VERBOSE")
    ∷ (codes "Subsystem", codes "sftp internal-sftp")
    ∷ []

abbrev read_lines : List Text → List (Option Directive)
read_lines = map (read_line [])

-- The text is read as these directives, line by line, and an empty line behind them.
abbrev pub ReadsAs : Text → List Directive → Type 0
ReadsAs text ds = map (read_line []) (split 10 text) ≡ map some ds ++ none ∷ []

quoted_argument : (s : Text) → read_argument (sshd_quote s) ≡ some s
unfolding sshd_quote
quoted_argument s = unquote-sshd_quote s

no_quote :
    (p : ℕ → Bool) (s : Text) → p 34 ≡ false → s ≢ [] → all p s ≡ true → read_argument s ≡ some s
no_quote p [] q ne h = absurd (ne refl)
no_quote p (c ∷ s) q ne h = ground (arith, q, h, eq_iff c 34)

user-ne : (s : Text) → match_user s ≡ true → s ≢ []
unfolding match_head
user-ne [] h e = absurd (ground (arith, h))
user-ne (c ∷ s) h e = ground (arith, e)

-- No byte of a safe path, of a number or of a user name ends a line.
escape-all : (s : Text) → all (is_not 10) s ≡ true → all (is_not 10) (escape s) ≡ true
unfolding escape
escape-all [] h = refl
escape-all (c ∷ s) h = ground (arith, h, escape-all s)

quote-all : (s : Text) → all (is_not 10) s ≡ true → all (is_not 10) (sshd_quote s) ≡ true
unfolding sshd_quote
quote-all s h = ground (arith, all-append (is_not 10) (escape s) (34 ∷ []) (escape-all s h) refl)

digit_line : (c : ℕ) → is_digit c ≡ true → is_not 10 c ≡ true
digit_line c h = ground (arith, h, eq_iff c 10)

user_line : (c : ℕ) → is_user_byte c ≡ true → is_not 10 c ≡ true
user_line c h = ground (arith, h, eq_iff c 10)

-- The paths that are written into the configuration hold no line end.
pub record IsOneLine (paths : Paths) : Type 0 where
  pub host_key : all (is_not 10) paths.host_key ≡ true
  pub sshd_pid : all (is_not 10) paths.sshd_pid ≡ true
  pub authorized_keys : all (is_not 10) paths.authorized_keys ≡ true
  pub ssh_bridge : all (is_not 10) paths.ssh_bridge ≡ true

module _ (paths : Paths) (user : Text) (port : ℕ) (o : IsOneLine paths)
    (u : match_user user ≡ true) where
  user_all : all is_user_byte user ≡ true
  user_all = (match_user-all user u).0

  sshd_lines-all : all (all (is_not 10)) (sshd_lines paths user port) ≡ true
  unfolding sshd_lines
  sshd_lines-all = ground (
    arith,
    quote-all paths.host_key o.host_key,
    quote-all paths.sshd_pid o.sshd_pid,
    quote-all paths.authorized_keys o.authorized_keys,
    quote-all paths.ssh_bridge o.ssh_bridge,
    weaken-all is_digit (is_not 10) digit_line (itoa port) (itoa-all port),
    weaken-all is_user_byte (is_not 10) user_line user user_all,
  )

  read_argument-port : read_argument (itoa port) ≡ some (itoa port)
  read_argument-port = no_quote is_digit (itoa port) refl (itoa-ne port) (itoa-all port)

  read_argument-user : read_argument user ≡ some user
  read_argument-user = no_quote is_user_byte user refl (user-ne user u) user_all

  read_lines-sshd_lines :
      read_lines (sshd_lines paths user port) ≡ map some (directives paths user port) ++ none ∷ []
  unfolding sshd_lines read_line
  read_lines-sshd_lines = ground (
    arith,
    quoted_argument paths.host_key,
    quoted_argument paths.sshd_pid,
    quoted_argument paths.authorized_keys,
    read_argument-port,
    read_argument-user,
  )

  pub sshd_config-ReadsAs : ReadsAs (sshd_config_text paths user port) (directives paths user port)
  unfolding sshd_lines
  sshd_config-ReadsAs =
      ap read_lines (split-join_with 10 _ _ sshd_lines-all) ∙ read_lines-sshd_lines
