-- ===== src/Sock/Backlog/Frame.antt =====
-- A backlog is kept by calls of `ixfd_commonsock_write` on another connection.
use iojxd.Prelude.{ℕ, ◌<◌, ◌≤◌, ◌≡◌, ◌∙◌, true, false, List, [], ◌∷◌, arith, ◌==◌}
use iojxd.Memory.{Ptr, Heap}
use iojxd.Memory.Cells.{has, Below-has, Below-mono}
use iojxd.Ev.{Watchers}
use iojxd.CycQueue.{Node}
use iojxd.CycQueue.Ring.{Cells, IsRing, footprint, Links-frame}
use iojxd.Sock.State.{Handler, Target, Conn, WriteJob, World}
use iojxd.Sock.Backlog.{Waiting, Backlog}
use iojxd.Sock.Backlog.Apart.{Apart}

IsRing-frame :
    {h : Heap Node} (g : Heap Node) {entry ph : Ptr} {xs : Cells}
    → IsRing h entry ph xs
    → ((a : Ptr) → has a (footprint entry ph xs) ≡ true → g.cell a ≡ h.cell a)
    → h.brk ≤ g.brk
    → IsRing g entry ph xs
IsRing-frame {h = h} g {entry = entry} {ph = ph} {xs = xs} ring same grown = record {
  tag = ring.tag;
  junk = ring.junk;
  points = same entry (ground arith) ∙ ring.points;
  links = Links-frame h ph g ph ring.junk xs ring.links λ a i. same a (ground arith);
  distinct = ring.distinct;
  below = Below-mono h.brk g.brk (footprint entry ph xs) ring.below grown;
}

Waiting-frame :
    (h g : Heap WriteJob) (xs : Cells) (bs : List (List ℕ))
    → Waiting h xs bs
    → ((p : Ptr) → p < h.brk → g.cell p ≡ h.cell p)
    → h.brk ≤ g.brk
    → Waiting g xs bs
Waiting-frame h g [] [] w same grown = tt
Waiting-frame h g [] (b ∷ bs) w same grown = absurd w
Waiting-frame h g (x ∷ xs) [] w same grown = absurd w
Waiting-frame h g (x ∷ xs) (b ∷ bs) w same grown =
    let at = w.0.1 in
    (
      (w.0.0, record { above = at.above; holds = same x.1 w.1 ∙ at.holds }),
      omega (arith, w.1),
      Waiting-frame h g xs bs w.2 same grown,
    )

pub Backlog-Apart :
    (io : Watchers Handler Target) (w v : World io.W) {ctx ph : Ptr} {c : Conn io.W} {xs ys : Cells}
    {ctx' ph' : Ptr} {c' : Conn io.W} {zs : Cells} {bs : List (List ℕ)}
    → Apart io w ctx ph c xs ys v
    → Backlog io w ctx' ph' c' zs bs
    → (ctx' == ctx) ≡ false
    → ((a : Ptr)
        → has a (footprint c'.buf_write ph' zs) ≡ true
        → has a (footprint c.buf_write ph xs) ≡ false)
    → Backlog io v ctx' ph' c' zs bs
Backlog-Apart io w v {ctx' = ctx'} {ph' = ph'} {c' = c'} {zs = zs} {bs = bs} apart at other
      disjoint =
    let ring = at.ring in
    let there = at.conn in
    let begun = at.start in
    let more = apart.job_brk in
    record {
      ring =
          IsRing-frame v.nodes ring
            (λ a i.
              apart.nodes a (Below-has w.nodes.brk a (footprint c'.buf_write ph' zs) ring.below i).1
                (disjoint a i))
            apart.node_brk;
      waiting = Waiting-frame w.jobs v.jobs zs bs at.waiting apart.jobs apart.job_brk;
      conn = record { above = there.above; holds = apart.conns ctx' other ∙ there.holds };
      launched = at.launched;
      runs = at.runs;
      start = omega arith;
    }
