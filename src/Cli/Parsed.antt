-- ===== src/Cli/Parsed.antt =====
-- Which command lines are accepted, and what they set.
use familiar_fleet.Base.{
  sym, subst, Bool-cases, Bool, true, false, ◌≡◌, refl, Option, none, some, List, [], ◌∷◌, ◌++◌,
  Text, codes, text_eq, ◌==◌, if◌then◌else◌, ◌⊎◌, inl, inr, arith, eq_iff,
}
use familiar_fleet.Cli.{
  check_no_args, check_runtime, check_connect, Next, Options, Invocation, Flag, UsageError,
  flag_name, set_option, default_options, classify, cut_equals, find_flag, next, parse_flags,
  check_command, takes_nothing, is_in, parse_invocation, invocation_from, invocation_of,
}

-- How a flag's value is given: behind `=` or as the next argument, with one dash or two.
pub record Setting : Type 0 where
  pub setting : Flag
  pub value : Text
  pub is_separate : Bool
  pub is_double : Bool

abbrev dashes : Bool → Text
dashes true = codes "--"
dashes false = codes "-"

abbrev pub written_before : Setting → List Text → List Text
written_before s rest =
    if s.is_separate
    then (dashes s.is_double ++ flag_name s.setting) ∷ s.value ∷ rest
    else (dashes s.is_double ++ (flag_name s.setting ++ b'=' ∷ s.value)) ∷ rest

-- A command line with these settings before its other arguments.
unfoldable pub written : List Setting → List Text → List Text
written [] rest = rest
written (s ∷ ss) rest = written_before s (written ss rest)

-- What the settings do, the first one first.
unfoldable pub applied_to : List Setting → Options → Options
applied_to [] o = o
applied_to (s ∷ ss) o = applied_to ss (set_option s.setting s.value o)

next_separate : (f : Flag) (d : Bool) → next (classify (dashes d ++ flag_name f)) ≡ Next.wants f
unfolding classify next cut_equals find_flag
next_separate f d = ground arith

next_joined :
    (f : Flag) (d : Bool) (v : Text)
    → next (classify (dashes d ++ (flag_name f ++ b'=' ∷ v))) ≡ Next.sets f v
unfolding classify next cut_equals find_flag
next_joined f d v = ground arith

-- Settings before other arguments are read as they were written, the last one of a flag counts, and
-- the other arguments are parsed with what they set.
pub parse_flags-written :
    (ss : List Setting) (o : Options) (rest : List Text)
    → parse_flags none o (written ss rest) ≡ parse_flags none (applied_to ss o) rest
unfolding parse_flags written applied_to
parse_flags-written [] o rest = refl
parse_flags-written (s ∷ ss) o rest = elim (Bool-cases s.is_separate) [
  | inl e ↦ ground (
    arith,
    e,
    next_separate s.setting s.is_double,
    parse_flags-written ss (set_option s.setting s.value o) rest,
  )
  | inr e ↦ ground (
    arith,
    e,
    next_joined s.setting s.is_double s.value,
    parse_flags-written ss (set_option s.setting s.value o) rest,
  )
]

-- What may be given behind the options.
pub data Usage : Text → List Text → Type 0 where
  connect : (url : Text) → Usage (codes "connect") (url ∷ [])
  apply : (installable : Text) → Usage (codes "runtime") (codes "apply" ∷ installable ∷ [])
  rollback : Usage (codes "runtime") (codes "rollback" ∷ [])
  status : Usage (codes "runtime") (codes "status" ∷ [])
  interactive : Usage (codes "interactive") []
  run : Usage (codes "run") []
  herdr : Usage (codes "herdr") []
  tunnel : Usage (codes "tunnel") []
  stop : Usage (codes "stop") []
  version : Usage (codes "version") []
  enroll : Usage (codes "enroll") []

abbrev Each : (Text → Type 0) → List Text → Type 0
Each P [] = Unit {0}
Each P (s ∷ ss) = P s × Each P ss

is_in_lem : (P : Text → Type 0) (t : Text) (ss : List Text) → Each P ss → is_in t ss ≡ true → P t
unfolding is_in
is_in_lem P t [] h e = absurd (cc)
is_in_lem P t (s ∷ ss) (h, hs) e = elim (Bool-cases (t == s)) [
  | inl q ↦ subst P (sym ((eq_iff t s).0 q)) h
  | inr q ↦ is_in_lem P t ss hs (ground (arith, e, q))
]

check_connect_sound : (args : List Text) → check_connect args ≡ none → Usage (codes "connect") args
check_connect_sound (url ∷ []) e = connect url
check_connect_sound [] e = absurd (cc)
check_connect_sound (a ∷ b ∷ args) e = absurd (cc)

check_runtime_sound : (args : List Text) → check_runtime args ≡ none → Usage (codes "runtime") args
check_runtime_sound [] e = absurd (cc)
check_runtime_sound (a ∷ []) e = elim (Bool-cases (a == codes "rollback")) [
  | inl q ↦
      subst (λ t. Usage (codes "runtime") (t ∷ [])) (sym ((eq_iff a (codes "rollback")).0 q))
        rollback
  | inr q ↦ elim (Bool-cases (a == codes "status")) [
    | inl r ↦
        subst (λ t. Usage (codes "runtime") (t ∷ [])) (sym ((eq_iff a (codes "status")).0 r)) status
    | inr r ↦ absurd (ground (arith, e, q, r))
  ]
]
check_runtime_sound (a ∷ b ∷ []) e = elim (Bool-cases (a == codes "apply")) [
  | inl q ↦
      subst (λ t. Usage (codes "runtime") (t ∷ b ∷ [])) (sym ((eq_iff a (codes "apply")).0 q))
        (apply b)
  | inr q ↦ absurd (ground (arith, e, q))
]
check_runtime_sound (a ∷ b ∷ c ∷ args) e = absurd (cc)

check_no_args_sound :
    (c : Text) (args : List Text)
    → is_in c takes_nothing ≡ true
    → check_no_args c args ≡ none
    → Usage c args
check_no_args_sound c [] h e =
    is_in_lem (λ t. Usage t []) c takes_nothing
      (interactive, (run, (herdr, (tunnel, (stop, (version, (enroll, tt))))))) h
check_no_args_sound c (a ∷ args) h e = absurd (cc)

check_command_sound : (c : Text) (args : List Text) → check_command c args ≡ none → Usage c args
unfolding check_command
check_command_sound c args e = elim (Bool-cases (c == codes "connect")) [
  | inl q ↦
      subst (λ t. Usage t args) (sym ((eq_iff c (codes "connect")).0 q))
        (check_connect_sound args (ground (arith, e, q)))
  | inr q ↦ elim (Bool-cases (c == codes "runtime")) [
    | inl r ↦
        subst (λ t. Usage t args) (sym ((eq_iff c (codes "runtime")).0 r))
          (check_runtime_sound args (ground (arith, e, q, r)))
    | inr r ↦ elim (Bool-cases (is_in c takes_nothing)) [
      | inl m ↦ check_no_args_sound c args m (ground (arith, e, q, r, m))
      | inr m ↦ absurd (ground (arith, e, q, r, m))
    ]
  ]
]

command-Usage :
    (o : Options) (c : Text) (args : List Text) (inv : Invocation)
    → invocation_of o (c ∷ args) ≡ inr inv
    → Usage inv.command inv.args
command-Usage o c args inv h = by_error (check_command c args) refl
  where
    by_error : (x : Option UsageError) → check_command c args ≡ x → Usage inv.command inv.args
    by_error none e =
        let q : record { options = o; command = c; args = args } ≡ inv = ground (arith, h, e) in
        subst (λ (i : Invocation). Usage i.command i.args) q (check_command_sound c args e)
    by_error (some y) e = absurd (ground (arith, h, e))

invocation_of-Usage :
    (o : Options) (args : List Text) (inv : Invocation)
    → invocation_of o args ≡ inr inv
    → Usage inv.command inv.args
invocation_of-Usage o [] inv h = command-Usage o (codes "interactive") [] inv h
invocation_of-Usage o (c ∷ args) inv h = command-Usage o c args inv h

-- Whatever the command line is, an invocation that comes of it has one of the forms of `Usage`.
pub parse_invocation-Usage :
    (e k : Text) (line : List Text) (inv : Invocation)
    → parse_invocation e k line ≡ inr inv
    → Usage inv.command inv.args
unfolding parse_invocation
parse_invocation-Usage e k line inv h = by_flags (parse_flags none (default_options e k) line) h
  where
    by_flags :
        (r : UsageError ⊎ (Options × List Text))
        → invocation_from r ≡ inr inv
        → Usage inv.command inv.args
    by_flags (inl x) q = absurd (cc)
    by_flags (inr (o, args)) q = invocation_of-Usage o args inv q
