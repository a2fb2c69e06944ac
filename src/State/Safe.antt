-- ===== src/State/Safe.antt =====
-- What a valid enrollment keeps out of the command lines and files that are made of it.
use familiar_fleet.Base.{
  ℕ, zero, suc, ◌≤◌, Bool, true, ◌||◌, ◌≡◌, ◌⊎◌, none, [], ◌∷◌, List, Text, nat_eq, text_eq, ◌==◌,
  eq_iff, all, length, arith, refl,
}
use familiar_fleet.Text.{split}
use familiar_fleet.State.{Enrollment, is_port, validate_enrollment, valid_host, program_name}
use familiar_fleet.State.Grammar.{
  match_label, match_label_end, match_most, match_head, match_user, is_label_byte, is_user_byte,
}
use familiar_fleet.State.PublicKey.{validate_public_key}
use familiar_fleet.Descriptor

match_label_end-all :
    (n : ℕ) (s : Text)
    → match_label_end n s ≡ true
    → (all is_label_byte s ≡ true) × (length s ≤ suc n)
unfolding match_label_end
match_label_end-all n [] h = absurd (ground arith)
match_label_end-all n (c ∷ []) h = ground arith
match_label_end-all zero (c ∷ d ∷ s) h = absurd (ground arith)
match_label_end-all (suc n) (c ∷ d ∷ s) h = ground (arith, match_label_end-all n (d ∷ s))

pub match_label-all :
    (s : Text) → match_label s ≡ true → (all is_label_byte s ≡ true) × (length s ≤ 63)
unfolding match_label
match_label-all [] h = absurd (ground arith)
match_label-all (c ∷ []) h = ground arith
match_label-all (c ∷ d ∷ s) h = ground (arith, match_label_end-all 61 (d ∷ s))

match_most-all :
    (p : ℕ → Bool) (n : ℕ) (s : Text) → match_most p n s ≡ true → (all p s ≡ true) × (length s ≤ n)
unfolding match_most
match_most-all p n [] h = ground arith
match_most-all p zero (c ∷ s) h = absurd (ground arith)
match_most-all p (suc n) (c ∷ s) h = ground (arith, match_most-all p n s)

pub match_user-all :
    (s : Text) → match_user s ≡ true → (all is_user_byte s ≡ true) × (length s ≤ 64)
unfolding match_head
match_user-all [] h = absurd (ground arith)
match_user-all (c ∷ s) h = ground (arith, match_most-all is_user_byte 63 s)

abbrev pub is_host_byte : ℕ → Bool
is_host_byte c = is_label_byte c || c == b'.'

labels-all :
    (parts : List Text) → all match_label parts ≡ true → all (λ t. all is_label_byte t) parts ≡ true
labels-all [] h = refl
labels-all (t ∷ parts) h = ground (arith, match_label-all t, labels-all parts)

split-all :
    (s : Text) → all (λ t. all is_label_byte t) (split b'.' s) ≡ true → all is_host_byte s ≡ true
unfolding split
split-all [] h = refl
split-all (c ∷ s) h = by_parts (split b'.' s) refl (split-all s)
  where
    by_parts :
        (parts : List Text)
        → split b'.' s ≡ parts
        → (all (λ t. all is_label_byte t) (split b'.' s) ≡ true → all is_host_byte s ≡ true)
        → all is_host_byte (c ∷ s) ≡ true
    by_parts [] e rest = ground (arith, e, rest, eq_iff c b'.')
    by_parts (t ∷ ts) e rest = ground (arith, e, rest, eq_iff c b'.')

valid_host-all :
    (is_ip : Text → Bool) (s : Text)
    → valid_host is_ip s ≡ true
    → (is_ip s ≡ true) ⊎ ((all is_host_byte s ≡ true) × (length s ≤ 253))
unfolding valid_host
valid_host-all is_ip s h = ground (arith, labels-all (split b'.' s), split-all s)

-- What holds of each field of a valid enrollment that reaches a command line or a file.
pub record IsSafe (is_ip : Text → Bool) (e : Enrollment) : Type 0 where
  pub user : (all is_user_byte e.tunnel_user ≡ true) × (length e.tunnel_user ≤ 64)
  pub host :
      (is_ip e.tunnel_host ≡ true)
      ⊎ ((all is_host_byte e.tunnel_host ≡ true) × (length e.tunnel_host ≤ 253))
  pub label : (all is_label_byte e.host ≡ true) × (length e.host ≤ 63)
  pub port : is_port e.port ≡ true
  pub ssh_port : is_port e.tunnel_ssh_port ≡ true
  pub session : e.remote_session ≡ program_name
  pub controller : validate_public_key e.controller_public_key ≡ none
  pub runtime : Descriptor.validate e.runtime ≡ none

-- A valid enrollment has a user name of at most 64 bytes that are letters, digits, `_`, `.` and
-- `-`, a tunnel host that is an IP address or at most 253 bytes of labels and dots, a host label
-- of at most 63 bytes, ports from 1 to 65535, the client's own session name, a well-formed
-- controller key and a valid runtime descriptor.
pub validate_enrollment-IsSafe :
    (is_ip : Text → Bool) (e : Enrollment) → validate_enrollment is_ip e ≡ none → IsSafe is_ip e
unfolding validate_enrollment
validate_enrollment-IsSafe is_ip e h = record {
  user = match_user-all e.tunnel_user (ground arith);
  host = valid_host-all is_ip e.tunnel_host (ground arith);
  label = match_label-all e.host (ground arith);
  port = ground arith;
  ssh_port = ground arith;
  session = (eq_iff e.remote_session program_name).0 (ground arith);
  controller = ground arith;
  runtime = ground arith;
}
