-- ===== src/Sock/Backlog.antt =====
-- Any number of calls of `ixfd_commonsock_write` on a connection, before its write watcher gets a
-- turn.
pub mod Apart
pub mod Calls
pub mod Pair
pub mod Mixed
mod MixedExamples
pub mod Frame
pub mod Turns
mod Examples
use iojxd.Prelude.{
  subst, sym, append-nil, ℤ, drop, ℕ, ◌+◌, ◌-◌, ◌<◌, ◌≤◌, ◌^◌, ◌≡◌, ◌∙◌, zero, suc, refl, ap, Bool,
  true, false, Bool-cases, inl, inr, none, some, List, [], ◌∷◌, ◌++◌, append_assoc, append-nil,
  arith, length, take, ltb, leb, subst, sym, ◌==◌, if◌then◌else◌,
}
use iojxd.Memory.{Ptr, null, pure, ◌>>=◌, ◌>>◌, Heap, Cmd, ok, is_null, write as write_cell}
use iojxd.Memory.Cells.{has, Holds, Holds-self, Holds-write, SameOutside, with_cell, extended}
use iojxd.Memory.Returns
use iojxd.Memory.Returns.{Returns, returns}
use iojxd.Ev.{Watchers}
use iojxd.CycQueue.Ring.{Cells, IsRing}
use iojxd.Sock.State.{
  Sock, Handler, Target, Sock, Conn, WriteJob, Event, wrote, World, Action, Call,
}
use iojxd.Sock.Kernel.{Written, taken, failed, to_size, sent}
use iojxd.Sock.Write.{blank_job, unwritten, call_context, write}
use iojxd.Sock.Access.{get_conn-ok}
use iojxd.Sock.Sending.{queued_job, filled, launched_unless, Queued, queue_rest-Queued}

-- The values of the queue are jobs with these bytes, in order.
abbrev pub Waiting : Heap WriteJob → Cells → List (List ℕ) → Type 0
Waiting h [] [] = Unit
Waiting h [] (b ∷ bs) = ⊥
Waiting h (x ∷ xs) [] = ⊥
Waiting h (x ∷ xs) (b ∷ bs) =
    ((cb : Ptr) × Holds h x.1 (queued_job b cb)) × (x.1 < h.brk) × Waiting h xs bs

module _ (h : Heap WriteJob) (rest : List ℕ) (cb : Ptr) (start : null < h.brk) where
  old_job : (p : Ptr) (j : WriteJob) → Holds h p j → p < h.brk → Holds (filled h rest cb) p j
  unfolding write_cell
  old_job p j at below = record { above = at.above; holds = ground (arith, at.holds) }

  pub Waiting-filled :
      (xs : Cells) (bs : List (List ℕ)) (n : Ptr)
      → Waiting h xs bs
      → Waiting (filled h rest cb) (xs ++ (n, h.brk) ∷ []) (bs ++ rest ∷ [])
  Waiting-filled [] [] n w =
      ((cb, Holds-self (extended h blank_job) start (queued_job rest cb)), omega arith, tt)
  Waiting-filled [] (b ∷ bs) n w = absurd w
  Waiting-filled (x ∷ xs) [] n w = absurd w
  Waiting-filled (x ∷ xs) (b ∷ bs) n w = (
    (w.0.0, old_job x.1 (queued_job b w.0.0) w.0.1 w.1),
    omega (arith, w.1),
    Waiting-filled xs bs n w.2,
  )

-- Something waits only while the write watcher has been launched.
abbrev pub Launched : Bool → List (List ℕ) → Type 0
Launched b [] = Unit
Launched b (x ∷ xs) = b ≡ true

pub Launched-true : (xs : List (List ℕ)) → Launched true xs
Launched-true [] = tt
Launched-true (x ∷ xs) = refl

-- One of the calls: the data, and the result of its system call.
pub record Attempt : Type 0 where
  pub data_ : List ℕ
  pub result : Written

-- Lengths fit into a `size_t`.
abbrev pub Fits : List Attempt → Type 0
Fits [] = Unit
Fits (a ∷ more) = (length a.data_ < 2 ^ 64) × Fits more

-- What the system call does not take, if it does not fail.
abbrev pub left_over : Written → List ℕ → List (List ℕ)
left_over (taken n) data_ = if ltb n (length data_) then drop n data_ ∷ [] else []
left_over failed data_ = []

abbrev pub left_overs : List Attempt → List (List ℕ)
left_overs [] = []
left_overs (a ∷ more) = left_over a.result a.data_ ++ left_overs more

-- What the kernel is told by all of them, the latest first.
abbrev pub told : ℤ → List Attempt → List Event → List Event
told fd [] trace = trace
told fd (a ∷ more) trace = told fd more (wrote fd (sent a.result a.data_) ∷ trace)

pub unwritten-drop : (n : ℕ) (bs : List ℕ) → unwritten n bs ≡ drop n bs
unwritten-drop zero bs = refl
unwritten-drop (suc n) bs = let more : ltb 0 (suc n) ≡ true = ground arith in rw more

module _ (io : Watchers Handler Target) where
  -- A connection on which `bs` waits, a job for each; the write watcher runs if anything waits.
  pub record Backlog (w : World io.W) (ctx ph : Ptr) (c : Conn io.W) (xs : Cells)
      (bs : List (List ℕ)) : Type 0 where
    pub ring : IsRing w.nodes c.buf_write ph xs
    pub waiting : Waiting w.jobs xs bs
    pub conn : Holds w.conns ctx c
    pub launched : Launched c.write_launched bs
    pub runs : c.write_launched ≡ true → io.is_active c.event_write ≡ true
    pub start : null < w.jobs.brk

  -- The connection is the one that it was, but for its write watcher.
  pub record Same (c c' : Conn io.W) : Type 0 where
    pub sock : c'.sock ≡ c.sock
    pub fd : c'.fd ≡ c.fd
    pub queue : c'.buf_write ≡ c.buf_write

  pub launched-Same : (b : Bool) (c : Conn io.W) → Same c (launched_unless b io c)
  launched-Same true c = record { sock = refl; fd = refl; queue = refl }
  launched-Same false c = record { sock = refl; fd = refl; queue = refl }

  pub launched-runs :
      (b : Bool) (c : Conn io.W)
      → c.write_launched ≡ b
      → (b ≡ true → io.is_active c.event_write ≡ true)
      → ((launched_unless b io c).write_launched ≡ true)
        × (io.is_active (launched_unless b io c).event_write ≡ true)
  launched-runs true c e on = (e, on refl)
  launched-runs false c e on = (refl, io.active-start c.event_write)

  -- The world `v` after the calls `calls`: what they did not send waits after what waited before,
  -- and the kernel was told of each in turn.
  pub record Kept (w : World io.W) (ctx ph : Ptr) (c : Conn io.W) (bs : List (List ℕ))
      (calls : List Attempt) (v : World io.W) : Type 0 where
    pub cells : Cells
    pub conn : Conn io.W
    pub backlog : Backlog v ctx ph conn cells (bs ++ left_overs calls)
    pub same : Same c conn
    pub trace : v.trace ≡ told c.fd calls w.trace

  pub Kept-none :
      (w : World io.W) (ctx ph : Ptr) (c : Conn io.W) (xs : Cells) (bs : List (List ℕ))
      → Backlog w ctx ph c xs bs
      → Kept w ctx ph c bs [] w
  Kept-none w ctx ph c xs bs at = record {
    cells = xs;
    conn = c;
    backlog = subst (Backlog w ctx ph c xs) (sym (append-nil bs)) at;
    same = launched-Same true c;
    trace = refl;
  }

  pub moved_sock :
      (w v : World io.W) (c d : Conn io.W) (s : Sock io.W)
      → v.socks ≡ w.socks
      → d.sock ≡ c.sock
      → Holds w.socks c.sock s
      → Holds v.socks d.sock s
  moved_sock w v c d s e e' at =
      subst (λ h. Holds h d.sock s) (sym e) (subst (λ p. Holds w.socks p s) (sym e') at)
