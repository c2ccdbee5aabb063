-- ===== src/Sandbox/Confined.antt =====
-- What a process can still do to its limits once it has given up the rights of root.
use iojxd.Prelude.{
  ℕ, suc, ℤ, pos, negsuc, ◌-◌, ◌^◌, ◌≡◌, refl, ◌∙◌, ap, sym, subst, ◌≤◌, ◌<◌, Bool-cases, inl, inr,
  true, ◌==◌, leb, ◌&&◌, if◌then◌else◌, List, [], ◌∷◌, arith,
}
use iojxd.Sandbox.{
  Kernel, to_rlim, Call, limiting_d, limiting, setting_uid, setting_gid, reslimit_d, reslimit,
  setuid, setgid, perform, run,
}

-- The range of `long`, and the `rlim_t` that a `long` stands for.
abbrev pub IsLong : ℤ → Type 0
IsLong (pos n) = n < 2 ^ 63
IsLong (negsuc n) = n < 2 ^ 63

abbrev pub limit_value : ℤ → ℕ
limit_value (pos n) = n
limit_value (negsuc n) = 2 ^ 64 - suc n

to_rlim-value : (v : ℤ) → IsLong v → to_rlim v ≡ limit_value v
to_rlim-value (pos n) range = omega arith
to_rlim-value (negsuc n) range = omega arith

-- A soft and a hard limit after a try to set them by a process without rights.
abbrev pub limit_to : ℕ → ℕ → ℕ × ℕ → ℕ × ℕ
limit_to cur max old = if leb cur max && leb max old.1 then (cur, max) else old

-- The limits of the resource `q` after a call, and after many.
abbrev pub expect : ℕ → Call → ℕ × ℕ → ℕ × ℕ
expect q (limiting_d r soft hard) old =
    if q == r then limit_to (limit_value soft) (limit_value hard) old else old
expect q (limiting r val) old =
    if q == r then limit_to (limit_value val) (limit_value val) old else old
expect q (setting_uid u) old = old
expect q (setting_gid g) old = old

abbrev pub expects : ℕ → List Call → ℕ × ℕ → ℕ × ℕ
expects q [] old = old
expects q (c ∷ cs) old = expects q cs (expect q c old)

abbrev pub HasLongs : Call → Type 0
HasLongs (limiting_d r soft hard) = IsLong soft × IsLong hard
HasLongs (limiting r val) = IsLong val
HasLongs (setting_uid u) = Unit
HasLongs (setting_gid g) = Unit

abbrev pub AreInRange : List Call → Type 0
AreInRange [] = Unit
AreInRange (c ∷ cs) = HasLongs c × AreInRange cs

module _ (kernel : Kernel) where
  abbrev limits : ℕ → kernel.S → ℕ × ℕ
  limits q s = (kernel.soft q s, kernel.hard q s)

  -- Confined, with no hard limit over its bound and no soft limit over the hard one.
  pub record Confined (bound : ℕ → ℕ) (s : kernel.S) : Type 0 where
    pub is_confined : kernel.confined s ≡ true
    pub ordered : (r : ℕ) → kernel.soft r s ≤ kernel.hard r s
    pub bounded : (r : ℕ) → kernel.hard r s ≤ bound r

  same_limits-Confined :
      (bound : ℕ → ℕ) (s s' : kernel.S)
      → Confined bound s
      → ((q : ℕ) → (kernel.soft q s' ≡ kernel.soft q s) × (kernel.hard q s' ≡ kernel.hard q s))
      → kernel.confined s' ≡ true
      → Confined bound s'
  same_limits-Confined bound s s' h same still = record {
    is_confined = still;
    ordered = λ q. rw ((same q).0, (same q).1) (h.ordered q);
    bounded = λ q. rw (same q).1 (h.bounded q);
  }

  limits-reslimit_d :
      (bound : ℕ → ℕ) (r : ℕ) (soft hard : ℤ) (s : kernel.S)
      → Confined bound s
      → (kernel.setrlimit r (to_rlim soft) (to_rlim hard) s).0 ≡ true
      → (q : ℕ)
      → (kernel.soft q (reslimit_d kernel r soft hard s)
          ≤ kernel.hard q (reslimit_d kernel r soft hard s))
        × (kernel.hard q (reslimit_d kernel r soft hard s) ≤ bound q)
  unfolding reslimit_d
  limits-reslimit_d bound r soft hard s h done q =
      let cur = to_rlim soft in
      let max = to_rlim hard in
      elim (Bool-cases (q == r)) [
        | inl e ↦
            let itself : r ≡ q = ground arith in
            let below : max ≤ kernel.hard r s =
              kernel.setrlimit-lowers r cur max s h.is_confined done in
            let bounded : kernel.hard r s ≤ bound r = h.bounded r in
            let within : max ≤ bound r = omega arith in
            subst
              (λ x.
                (kernel.soft x (kernel.setrlimit r cur max s).1
                  ≤ kernel.hard x (kernel.setrlimit r cur max s).1)
                × (kernel.hard x (kernel.setrlimit r cur max s).1 ≤ bound x))
              itself
              (rw (kernel.soft-setrlimit r cur max s done, kernel.hard-setrlimit r cur max s done)
                (kernel.setrlimit-ordered r cur max s done, within))
        | inr e ↦
            let other = kernel.setrlimit-other r cur max q s e in
            rw (other.0, other.1) (h.ordered q, h.bounded q)
      ]

  reslimit_d-Confined :
      (bound : ℕ → ℕ) (r : ℕ) (soft hard : ℤ) (s : kernel.S)
      → Confined bound s
      → Confined bound (reslimit_d kernel r soft hard s)
  unfolding reslimit_d
  reslimit_d-Confined bound r soft hard s h =
      let cur = to_rlim soft in
      let max = to_rlim hard in
      elim (Bool-cases (kernel.setrlimit r cur max s).0) [
        | inr e ↦ rw (kernel.setrlimit-refused r cur max s e) h
        | inl e ↦ record {
          is_confined = kernel.confined-setrlimit r cur max s ∙ h.is_confined;
          ordered = λ q. (limits-reslimit_d bound r soft hard s h e q).0;
          bounded = λ q. (limits-reslimit_d bound r soft hard s h e q).1;
        }
      ]

  perform-Confined :
      (bound : ℕ → ℕ) (c : Call) (s : kernel.S)
      → Confined bound s
      → Confined bound (perform kernel c s)
  unfolding reslimit setuid setgid
  perform-Confined bound (limiting_d r soft hard) s h = reslimit_d-Confined bound r soft hard s h
  perform-Confined bound (limiting r val) s h = reslimit_d-Confined bound r val val s h
  perform-Confined bound (setting_uid u) s h =
      same_limits-Confined bound s (kernel.setuid u s).1 h (λ q. kernel.limits-setuid u q s)
        (kernel.confined-setuid u s h.is_confined)
  perform-Confined bound (setting_gid g) s h =
      same_limits-Confined bound s (kernel.setgid g s).1 h (λ q. kernel.limits-setgid g q s)
        (kernel.confined-setgid g s h.is_confined)

  run-Confined :
      (bound : ℕ → ℕ) (cs : List Call) (s : kernel.S)
      → Confined bound s
      → Confined bound (run kernel cs s)
  run-Confined bound [] s h = h
  run-Confined bound (c ∷ cs) s h =
      run-Confined bound cs (perform kernel c s) (perform-Confined bound c s h)

  own-Expected :
      (r cur max : ℕ) (s : kernel.S)
      → kernel.confined s ≡ true
      → kernel.valid r ≡ true
      → limits r (kernel.setrlimit r cur max s).1 ≡ limit_to cur max (limits r s)
  own-Expected r cur max s unprivileged known =
      elim (Bool-cases (leb cur max && leb max (kernel.hard r s))) [
        | inl e ↦
            let low : cur ≤ max = ground (arith, e) in
            let lower : max ≤ kernel.hard r s = ground (arith, e) in
            let done = kernel.setrlimit-succeeds r cur max s known low lower in
            rw (e, kernel.soft-setrlimit r cur max s done, kernel.hard-setrlimit r cur max s done)
        | inr e ↦ elim (Bool-cases (kernel.setrlimit r cur max s).0) [
          | inl done ↦
              let low = kernel.setrlimit-ordered r cur max s done in
              let lower = kernel.setrlimit-lowers r cur max s unprivileged done in
              absurd (ground (arith, e, low, lower))
          | inr refused ↦ rw (e, kernel.setrlimit-refused r cur max s refused)
        ]
      ]

  reslimit_d-Expected :
      (r q : ℕ) (soft hard : ℤ) (s : kernel.S)
      → kernel.confined s ≡ true
      → kernel.valid q ≡ true
      → IsLong soft
      → IsLong hard
      → limits q (reslimit_d kernel r soft hard s) ≡ expect q (limiting_d r soft hard) (limits q s)
  unfolding reslimit_d
  reslimit_d-Expected r q soft hard s unprivileged known range range' =
      let cur = to_rlim soft in
      let max = to_rlim hard in
      elim (Bool-cases (q == r)) [
        | inl e ↦
            let itself : q ≡ r = ground arith in
            rw (e, sym (to_rlim-value soft range), sym (to_rlim-value hard range'))
              (subst
                (λ x. limits q (kernel.setrlimit x cur max s).1 ≡ limit_to cur max (limits q s))
                itself (own-Expected q cur max s unprivileged known))
        | inr e ↦ let other = kernel.setrlimit-other r cur max q s e in rw (e, other.0, other.1)
      ]

  perform-Expected :
      (q : ℕ) (c : Call) (s : kernel.S)
      → kernel.confined s ≡ true
      → kernel.valid q ≡ true
      → HasLongs c
      → limits q (perform kernel c s) ≡ expect q c (limits q s)
  unfolding reslimit setuid setgid
  perform-Expected q (limiting_d r soft hard) s unprivileged known range =
      reslimit_d-Expected r q soft hard s unprivileged known range.0 range.1
  perform-Expected q (limiting r val) s unprivileged known range =
      reslimit_d-Expected r q val val s unprivileged known range range
  perform-Expected q (setting_uid u) s unprivileged known range =
      rw ((kernel.limits-setuid u q s).0, (kernel.limits-setuid u q s).1)
  perform-Expected q (setting_gid g) s unprivileged known range =
      rw ((kernel.limits-setgid g q s).0, (kernel.limits-setgid g q s).1)

  run-Expected :
      (bound : ℕ → ℕ) (q : ℕ) (cs : List Call) (s : kernel.S)
      → Confined bound s
      → kernel.valid q ≡ true
      → AreInRange cs
      → limits q (run kernel cs s) ≡ expects q cs (limits q s)
  run-Expected bound q [] s h known range = refl
  run-Expected bound q (c ∷ cs) s h known range =
      run-Expected bound q cs (perform kernel c s) (perform-Confined bound c s h) known range.1
      ∙ ap (expects q cs) (perform-Expected q c s h.is_confined known range.0)

  -- Once root has given up its rights by `ixut_setuid`, for a user id that is not 0 and with
  -- success, any later calls of the four functions, in any order, move the limits of a resource
  -- that the kernel knows as `expects` says: a call on that resource sets the soft limit to its
  -- first value and the hard limit to its second, if the first is not over the second nor the
  -- second over the hard limit as it is, and otherwise changes nothing, where a negative `long`
  -- stands for a limit of 2 ^ 64 less. So the hard limit is never raised over what it was then, nor
  -- the soft limit over the hard one. The conditions:
  -- no soft limit was over the hard one before, and the arguments are in the range of `long`.
  pub confined_lem :
      (uid : ℕ) (calls : List Call) (s : kernel.S)
      → kernel.root s ≡ true
      → 0 < uid
      → (setuid kernel uid s).0 ≡ true
      → ((r : ℕ) → kernel.soft r s ≤ kernel.hard r s)
      → AreInRange calls
      → (r : ℕ) → kernel.valid r ≡ true
      → let s' = run kernel calls (setuid kernel uid s).1 in
        ((kernel.soft r s', kernel.hard r s') ≡ expects r calls (kernel.soft r s, kernel.hard r s))
        × (kernel.soft r s' ≤ kernel.hard r s')
        × (kernel.hard r s' ≤ kernel.hard r s)
  unfolding setuid
  confined_lem uid calls s rights user done ordered range r known =
      let same = λ (q : ℕ). kernel.limits-setuid uid q s in
      let first : Confined (λ q. kernel.hard q s) (kernel.setuid uid s).1 = record {
        is_confined = kernel.setuid-confines uid s rights user done;
        ordered = λ q. rw ((same q).0, (same q).1) (ordered q);
        bounded = λ q. rw (same q).1 (omega arith);
      } in
      let h = run-Confined (λ q. kernel.hard q s) calls (kernel.setuid uid s).1 first in
      let kept : limits r (kernel.setuid uid s).1 ≡ limits r s = rw ((same r).0, (same r).1) in
      (
        run-Expected (λ q. kernel.hard q s) r calls (kernel.setuid uid s).1 first known range
            ∙ ap (expects r calls) kept,
        h.ordered r,
        h.bounded r,
      )
