-- ===== src/Session/Sshd/Bounded.antt =====
-- How many sshd processes are started, and how many are left.
use familiar_fleet.Base.{
  ℕ, zero, suc, ◌+◌, ◌≤◌, Bool, true, false, ◌≡◌, ◌≢◌, ◌⊎◌, inl, inr, refl, Option, none, some,
  List, [], ◌∷◌, ◌++◌, if◌then◌else◌, arith,
}
use familiar_fleet.Session.Sshd.{
  context_ends, Act, start_sshd, sshd_gone, stop_child, Wake, exits, tick, deadline, cancelled,
  Attempt, SshdError, Tried, ready, again, given_up, stuck, Sshd, listening, refused, waiting,
  await_sshd, try_sshd, go_on, start_sshd_from, start_sshd_all, run_tunnel, TunnelEnd,
  tunnel_waiting, with_sshd, sshd_exits, context_ends,
}

-- How often something was done.
unfoldable pub count : (Act → Bool) → List Act → ℕ
count p [] = 0
count p (a ∷ acts) = let rest = count p acts in if p a then suc rest else rest

abbrev pub is_start : Act → Bool
is_start start_sshd = true
is_start _ = false

abbrev pub is_gone : Act → Bool
is_gone sshd_gone = true
is_gone _ = false

count-append : (p : Act → Bool) (xs ys : List Act) → count p (xs ++ ys) ≡ count p xs + count p ys
unfolding count
count-append p [] ys = omega arith
count-append p (x ∷ xs) ys = ground (arith, count-append p xs ys)

abbrev left_by : Tried → ℕ
left_by ready = 1
left_by _ = 0

-- What an attempt starts, and what of it is left.
record IsAccounted (r : Tried × List Act) : Type 0 where
  few : count is_start r.1 ≤ 1
  balance : (r.0 ≡ stuck) ⊎ (count is_start r.1 ≡ count is_gone r.1 + left_by r.0)

await_sshd-gone :
    (wakes : List Wake)
    → let r = await_sshd wakes in
      (count is_start r.1 ≡ 0) × ((r.0 ≡ stuck) ⊎ (1 ≡ count is_gone r.1 + left_by r.0))
unfolding await_sshd count stop_child
await_sshd-gone [] = ground arith
await_sshd-gone (exits ∷ wakes) = ground arith
await_sshd-gone (tick b ∷ wakes) = ground (arith, await_sshd-gone wakes)
await_sshd-gone (deadline s ∷ wakes) = ground arith
await_sshd-gone (cancelled s ∷ wakes) = ground arith

try_sshd-IsAccounted : (a : Attempt) → IsAccounted (try_sshd a)
unfolding try_sshd count
try_sshd-IsAccounted a = ground (arith, await_sshd-gone a.wakes)

abbrev pub left_in : Sshd → ℕ
left_in (listening p) = 1
left_in _ = 0

-- What a start of sshd has done, with so many attempts.
pub record IsBounded (attempts : ℕ) (r : Sshd × List Act) : Type 0 where
  pub few : count is_start r.1 ≤ attempts
  pub balance : (r.0 ≡ waiting) ⊎ (count is_start r.1 ≡ count is_gone r.1 + left_in r.0)

go_on-IsBounded :
    (n : ℕ) (a : Attempt) (r : Tried × List Act) (rest : SshdError → Sshd × List Act)
    → IsAccounted r
    → ((e : SshdError) → IsBounded n (rest e))
    → IsBounded (suc n) (go_on a r rest)
unfolding count
go_on-IsBounded n a (ready, acts) rest h k = ground (arith, h)
go_on-IsBounded n a (again e, acts) rest h k =
    ground
      (arith, h, k e, count-append is_start acts (rest e).1, count-append is_gone acts (rest e).1)
go_on-IsBounded n a (given_up e, acts) rest h k = ground (arith, h)
go_on-IsBounded n a (stuck, acts) rest h k = ground (arith, h)

start_sshd_from-IsBounded :
    (n : ℕ) (last : Option SshdError) (attempts : List Attempt)
    → IsBounded n (start_sshd_from n last attempts)
unfolding start_sshd_from count
start_sshd_from-IsBounded zero last attempts = ground arith
start_sshd_from-IsBounded (suc n) last [] = ground arith
start_sshd_from-IsBounded (suc n) last (a ∷ attempts) =
    go_on-IsBounded n a (try_sshd a) _ (try_sshd-IsAccounted a)
      (λ e. start_sshd_from-IsBounded n (some e) attempts)

-- However its attempts go, `startSSHD` starts at most five processes, and when it returns, all that it
-- started are gone, but one where it returns that one.
pub start_sshd_all-IsBounded : (attempts : List Attempt) → IsBounded 5 (start_sshd_all attempts)
unfolding start_sshd_all
start_sshd_all-IsBounded attempts = start_sshd_from-IsBounded 5 none attempts

with_sshd-balanced :
    (s : Sshd) (e : Option TunnelEnd) (acts : List Act)
    → (s ≡ waiting) ⊎ (count is_start acts ≡ count is_gone acts + left_in s)
    → let r = with_sshd s e in
      (r.0 ≡ tunnel_waiting)
      ⊎ (count is_start acts + count is_start r.1 ≡ count is_gone acts + count is_gone r.1)
unfolding count stop_child
with_sshd-balanced (listening p) none acts h = ground (arith, h)
with_sshd-balanced (listening p) (some sshd_exits) acts h = ground (arith, h)
with_sshd-balanced (listening p) (some (context_ends s)) acts h = ground (arith, h)
with_sshd-balanced (refused x) e acts h = ground (arith, h)
with_sshd-balanced waiting e acts h = ground (arith, h)

-- A run of the tunnel that has returned leaves no sshd: as many are gone as were started.
run_tunnel-balanced :
    (attempts : List Attempt) (e : Option TunnelEnd)
    → (run_tunnel attempts e).0 ≢ tunnel_waiting
    → count is_start (run_tunnel attempts e).1 ≡ count is_gone (run_tunnel attempts e).1
unfolding run_tunnel
run_tunnel-balanced attempts e h =
    let (s, acts) = start_sshd_all attempts in
    ground (
      arith,
      h,
      with_sshd-balanced s e acts (start_sshd_all-IsBounded attempts).balance,
      count-append is_start acts (with_sshd s e).1,
      count-append is_gone acts (with_sshd s e).1,
    )

abbrev is_end : Wake → Bool
is_end (tick b) = false
is_end _ = true

abbrev Ends : List Wake → Type 0
Ends [] = ⊥
Ends (w ∷ wakes) = (is_end w ≡ true) ⊎ Ends wakes

-- So many attempts are there, and each sees the exit of its process, the deadline or the context's end.
abbrev pub AllEnd : ℕ → List Attempt → Type 0
AllEnd zero attempts = Unit
AllEnd (suc n) [] = ⊥
AllEnd (suc n) (a ∷ attempts) = Ends a.wakes × AllEnd n attempts

await_sshd-Ends : (wakes : List Wake) → Ends wakes → (await_sshd wakes).0 ≢ stuck
unfolding await_sshd
await_sshd-Ends [] h = absurd h
await_sshd-Ends (exits ∷ wakes) h = λ e. cc
await_sshd-Ends (tick b ∷ wakes) (inl h) = λ e. absurd (cc)
await_sshd-Ends (tick true ∷ wakes) (inr h) = λ e. cc
await_sshd-Ends (tick false ∷ wakes) (inr h) = await_sshd-Ends wakes h
await_sshd-Ends (deadline s ∷ wakes) h = λ e. cc
await_sshd-Ends (cancelled s ∷ wakes) h = λ e. cc

try_sshd-Ends : (a : Attempt) → Ends a.wakes → (try_sshd a).0 ≢ stuck
unfolding try_sshd
try_sshd-Ends a h = λ e. ground (arith, e, await_sshd-Ends a.wakes h)

go_on-returns :
    (a : Attempt) (r : Tried × List Act) (rest : SshdError → Sshd × List Act)
    → r.0 ≢ stuck
    → ((e : SshdError) → (rest e).0 ≢ waiting)
    → (go_on a r rest).0 ≢ waiting
go_on-returns a (ready, acts) rest h k = λ f. cc
go_on-returns a (again x, acts) rest h k = k x
go_on-returns a (given_up x, acts) rest h k = λ f. cc
go_on-returns a (stuck, acts) rest h k = absurd (h refl)

start_sshd_from-returns :
    (n : ℕ) (last : Option SshdError) (attempts : List Attempt)
    → AllEnd n attempts
    → (start_sshd_from n last attempts).0 ≢ waiting
unfolding start_sshd_from
start_sshd_from-returns zero last attempts h = λ e. cc
start_sshd_from-returns (suc n) last [] h = absurd h
start_sshd_from-returns (suc n) last (a ∷ attempts) (h, hs) =
    go_on-returns a (try_sshd a) _ (try_sshd-Ends a h)
      (λ e. start_sshd_from-returns n (some e) attempts hs)

-- `startSSHD` returns: with five attempts, each of which sees the exit of its process, its deadline or
-- the end of the context, it comes to a result.
pub start_sshd_all-returns :
    (attempts : List Attempt) → AllEnd 5 attempts → (start_sshd_all attempts).0 ≢ waiting
unfolding start_sshd_all
start_sshd_all-returns attempts h = start_sshd_from-returns 5 none attempts h
