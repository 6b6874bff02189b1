-- ===== src/TelnetLog/Clients.antt =====
-- The clients of the log: the loop of telnet_accept_task, one connection at a time.
use daikin_d3net.Base.{
  ℕ, zero, suc, Bool-cases, inl, inr, ◌+◌, ◌<◌, ◌≤◌, ◌≡◌, refl, arith, true, false, List, [], ◌∷◌,
  if◌then◌else◌, length, set, leb,
}
use daikin_d3net.Base.Int.{ℤ}
use daikin_d3net.Base.Text.{codes}
use daikin_d3net.Codec.{is_negative}
use daikin_d3net.TelnetLog.{TelnetLog, Sockets}

-- The first slot that is free, from slot `i` on: the number behind the last one if none is.
unfoldable pub free_slot : List ℤ → ℕ → ℕ
free_slot [] i = i
free_slot (fd ∷ fds) i = let next = free_slot fds (i + 1) in if is_negative fd then i else next

-- A round of the loop of `telnet_accept_task`, for the result of `accept`.
unfoldable pub accept_client : (s : Sockets) → ℤ → TelnetLog → s.World → TelnetLog × s.World
unfolding free_slot
accept_client s sock st w =
    let slot = free_slot st.clients 0 in
    if is_negative sock
    then (st, w)
    else if leb (length st.clients) slot
    then (st, s.close w sock)
    else (
      record st { clients = set st.clients slot sock },
      (s.send w sock (codes "D3Net telnet connected\r\n")).1,
    )

-- The number of sockets in the slots.
unfoldable pub open_count : List ℤ → ℕ
open_count [] = 0
open_count (fd ∷ fds) = (if is_negative fd then 0 else 1) + open_count fds

free_slot-ge : (fds : List ℤ) (i : ℕ) → i ≤ free_slot fds i
unfolding free_slot
free_slot-ge [] i = omega arith
free_slot-ge (fd ∷ fds) i = ground (arith, free_slot-ge fds (i + 1))

pub open_count-le : (fds : List ℤ) → open_count fds ≤ length fds
unfolding open_count
open_count-le [] = omega arith
open_count-le (fd ∷ fds) = ground (arith, open_count-le fds)

-- A slot is found unless all are taken.
pub free_slot-lt :
    (fds : List ℤ) (i : ℕ) → open_count fds < length fds → free_slot fds i < i + length fds
unfolding free_slot open_count
free_slot-lt [] i h = absurd (omega arith)
free_slot-lt (fd ∷ fds) i h = elim (Bool-cases (is_negative fd)) [
  | inl e ↦ ground arith
  | inr e ↦ ground (arith, free_slot-lt fds (i + 1) (ground arith))
]

free_slot-full :
    (fds : List ℤ) (i : ℕ) → open_count fds ≡ length fds → free_slot fds i ≡ i + length fds
unfolding free_slot open_count
free_slot-full [] i h = omega arith
free_slot-full (fd ∷ fds) i h = elim (Bool-cases (is_negative fd)) [
  | inl e ↦ absurd (ground (arith, open_count-le fds))
  | inr e ↦ ground (arith, free_slot-full fds (i + 1) (ground arith))
]

-- What is put in the slot that was found is one client more.
set-free_slot :
    (fds : List ℤ) (i j : ℕ) (sock : ℤ)
    → is_negative sock ≡ false
    → open_count fds < length fds
    → free_slot fds i ≡ i + j
    → open_count (set fds j sock) ≡ open_count fds + 1
unfolding free_slot open_count
set-free_slot [] i j sock s h e = absurd (omega arith)
set-free_slot (fd ∷ fds) i zero sock s h e = elim (Bool-cases (is_negative fd)) [
  | inl n ↦ ground arith
  | inr n ↦ absurd (ground (arith, free_slot-ge fds (i + 1)))
]
set-free_slot (fd ∷ fds) i (suc j) sock s h e = elim (Bool-cases (is_negative fd)) [
  | inl n ↦ absurd (ground arith)
  | inr n ↦ ground (arith, set-free_slot fds (i + 1) j sock s (ground arith) (ground arith))
]

-- A connection that was accepted, while not all slots are taken, becomes one client more, and none
-- is lost.
pub accept_client_room :
    (s : Sockets) (sock : ℤ) (st : TelnetLog) (w : s.World)
    → is_negative sock ≡ false
    → open_count st.clients < length st.clients
    → open_count (accept_client s sock st w).0.clients ≡ open_count st.clients + 1
unfolding accept_client
accept_client_room s sock st w n room =
    let slot = free_slot st.clients 0 in
    let found = free_slot-lt st.clients 0 room in
    let far : leb (length st.clients) slot ≡ false = ground arith in
    rw (n, far) (set-free_slot st.clients 0 slot sock n room (omega arith))

-- While all slots are taken, it leaves the clients as they were and its socket is closed.
pub accept_client_full :
    (s : Sockets) (sock : ℤ) (st : TelnetLog) (w : s.World)
    → is_negative sock ≡ false
    → open_count st.clients ≡ length st.clients
    → accept_client s sock st w ≡ (st, s.close w sock)
unfolding accept_client
accept_client_full s sock st w n full =
    let behind = free_slot-full st.clients 0 full in
    let far : leb (length st.clients) (free_slot st.clients 0) ≡ true = ground arith in
    rw (n, far) refl
