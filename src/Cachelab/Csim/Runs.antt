-- ===== src/Cachelab/Csim/Runs.antt =====
-- The simulator over a whole trace.
use sysprog2021s.Prelude.{
  ℕ, ◌+◌, ◌/◌, ◌^◌, ◌≤◌, ◌<◌, ◌≡◌, refl, sym, ap, ◌∙◌, ◌||◌, some, inl, inr, List, [], ◌∷◌, ◌++◌,
  ◌==◌, length, length-append, set, length-set, Bool-cases, arith,
}
use sysprog2021s.Prelude.Bits.{two-pow-lt}
use sysprog2021s.Prelude.Fallible.{Ensures, Ensures-bind, ◌>>=◌}
use sysprog2021s.Cachelab.Csim.{
  Param, Message, Cache, Entry, set_of, tag_of, access_set, access_cache, switch_instr, run_entry,
  run_trace,
}
use sysprog2021s.Cachelab.Csim.Spec.{counted}
use sysprog2021s.Cachelab.Csim.Access.{HasRoom, AfterAccess, access_set-IsLru}
use sysprog2021s.Cachelab.Csim.Address.{address_fields}
use sysprog2021s.Cachelab.Csim.Trace.{
  Geometry, HasShape, IsUsable, index_in, tag_in, history, policy_step, policy, past_after,
  accesses_of, accesses, AllLru, Simulates, length-history, history-same, AllLru-get, AllLru-set,
}

-- After the accesses `later` the simulator stands where the policy does.
abbrev pub Follows : Geometry → List ℕ → Param → List ℕ → Cache × Param × List Message → Type 0
Follows q past p later (c', p', out) =
    Simulates q (past_after past later) c' p' × (p' ≡ policy q past p later)

-- A count changes no field of the shape, and one of the counters.
counted_fields :
    (e : ℕ) (h : List ℕ) (g : ℕ) (p : Param)
    → ((counted e h g p).s ≡ p.s)
      × ((counted e h g p).b ≡ p.b)
      × ((counted e h g p).e ≡ p.e)
      × ((counted e h g p).n_hit + (counted e h g p).n_miss ≡ p.n_hit + p.n_miss + 1)
      × ((p.n_evict ≤ p.n_miss) → (counted e h g p).n_evict ≤ (counted e h g p).n_miss)
unfolding counted
counted_fields e h g p = ground arith

shape_fields :
    (q : Geometry) (p : Param) (a : ℕ)
    → HasShape q p
    → IsUsable q
    → (set_of p a ≡ some (index_in q a))
      × (tag_of p a ≡ some (tag_in q a))
      × (index_in q a < 2 ^ q.s)
shape_fields q p a shape u =
    let (at, tag, small) =
      address_fields p a (omega (arith, u.some_sets)) (omega (arith, u.tag_left)) in
    (cc at, cc tag, two-pow-lt (a / 2 ^ q.b) q.s)

-- A count of one address keeps the simulation, whatever it is.
counted-Simulates :
    {q : Geometry} (past : List ℕ) (c : Cache) (p : Param) (a : ℕ) (c' : Cache) (p' : Param)
    (h : List ℕ) (g : ℕ)
    → Simulates q past c p
    → length c' ≡ 2 ^ q.s
    → AllLru q (a ∷ past) 0 c'
    → p' ≡ counted q.e h g p
    → Simulates q (a ∷ past) c' p'
counted-Simulates {q} past c p a c' p' h g sim sets all count =
    let (s, b, e, total, fewer) = counted_fields q.e h g p in
    record {
      shape = record {
        set_bits = ap (λ (r : Param). r.s) count ∙ s ∙ sim.shape.set_bits;
        block_bits = ap (λ (r : Param). r.b) count ∙ b ∙ sim.shape.block_bits;
        lines_per_set = ap (λ (r : Param). r.e) count ∙ e ∙ sim.shape.lines_per_set;
      };
      sets = sets;
      all = all;
      bounded = omega (
        arith,
        ap (λ (r : Param). r.n_hit) count,
        ap (λ (r : Param). r.n_miss) count,
        total,
        sim.bounded,
      );
      evicted = omega (
        arith,
        ap (λ (r : Param). r.n_evict) count,
        ap (λ (r : Param). r.n_miss) count,
        fewer sim.evicted,
      );
    }

module _ (q : Geometry) (u : IsUsable q) where
  access_cache-Follows :
      (past : List ℕ) (c : Cache) (p : Param) (a : ℕ)
      → Simulates q past c p
      → length past + 1 < 2 ^ 32
      → Ensures (Follows q past p (a ∷ [])) (access_cache c p a)
  unfolding access_cache past_after policy policy_step
  access_cache-Follows past c p a sim room =
      let si = index_in q a in
      let h = history q si past in
      let (at, tag, small) = shape_fields q p a sim.shape u in
      let (cs, got, lru, len) = AllLru-get q past 0 si c sim.all (omega (arith, sim.sets, small)) in
      let here : 0 + si ≡ si = omega arith in
      let shown = length-history q si past in
      let fits : HasRoom h p = record {
        time = omega (arith, shown);
        hits = omega (arith, sim.bounded);
        misses = omega (arith, sim.bounded);
        evicts = omega (arith, sim.bounded, sim.evicted);
      } in
      rw (tag, at)
        (rw got (
          Ensures-bind (AfterAccess h (tag_in q a) p cs.lines) (Follows q past p (a ∷ []))
            (access_set (tag_in q a) p cs) _
            (access_set-IsLru h (tag_in q a) p cs (rw here at lru) fits
              (len ∙ sym sim.shape.lines_per_set)
              (omega (arith, u.some_lines, sim.shape.lines_per_set)))
            λ (p', cs', out) (lru', len', count).
              let count' = count ∙ ap (λ (n : ℕ). counted n h (tag_in q a) p) len in
              let grown =
                AllLru-set q past 0 si a c cs' sim.all (omega arith) (rw (here, history-same) lru')
                  (len' ∙ len) in
              (
                counted-Simulates past c p a (set c si cs') p' h (tag_in q a) sim
                    (length-set c si cs' ∙ sim.sets) grown count',
                count',
              )))

  policy-append :
      (past : List ℕ) (p : Param) (xs ys : List ℕ)
      → policy q past p (xs ++ ys) ≡ policy q (past_after past xs) (policy q past p xs) ys
  unfolding policy past_after
  policy-append past p [] ys = refl
  policy-append past p (x ∷ xs) ys = policy-append (x ∷ past) (policy_step q past p x) xs ys

  past_after-append :
      (past xs ys : List ℕ) → past_after past (xs ++ ys) ≡ past_after (past_after past xs) ys
  unfolding past_after
  past_after-append past [] ys = refl
  past_after-append past (x ∷ xs) ys = past_after-append (x ∷ past) xs ys

  length-past_after : (past xs : List ℕ) → length (past_after past xs) ≡ length past + length xs
  unfolding past_after
  length-past_after past [] = omega arith
  length-past_after past (x ∷ xs) = omega (arith, length-past_after (x ∷ past) xs)

  -- Two stretches of accesses, one after the other.
  Follows-append :
      (past : List ℕ) (p : Param) (xs ys : List ℕ) (r r' : Cache × Param × List Message)
      → Follows q past p xs r
      → Follows q (past_after past xs) r.1 ys r'
      → (out : List Message) → Follows q past p (xs ++ ys) (r'.0, r'.1, out)
  Follows-append past p xs ys r r' (sim, at) (sim', at') out = (
    rw (past_after-append past xs ys) sim',
    at'
        ∙ ap (λ (k : Param). policy q (past_after past xs) k ys) at
        ∙ sym (policy-append past p xs ys),
  )

  Follows-nil :
      (past : List ℕ) (c : Cache) (p : Param)
      → Simulates q past c p
      → Follows q past p [] (c, p, [])
  unfolding past_after policy
  Follows-nil past c p sim = (sim, refl)

  access_twice-Follows :
      (past : List ℕ) (c : Cache) (p : Param) (a : ℕ)
      → Simulates q past c p
      → length past + 2 < 2 ^ 32
      → Ensures (Follows q past p (a ∷ a ∷ [])) (
          access_cache c p a >>= λ (c', p', out).
          access_cache c' p' a >>= λ (c'', p'', out'). some (c'', p'', out ++ out'))
  access_twice-Follows past c p a sim room =
      Ensures-bind (Follows q past p (a ∷ [])) (Follows q past p (a ∷ a ∷ [])) (access_cache c p a)
        _ (access_cache-Follows past c p a sim (omega arith))
        λ (c', p', out) f.
          Ensures-bind (Follows q (past_after past (a ∷ [])) p' (a ∷ []))
            (Follows q past p (a ∷ a ∷ [])) (access_cache c' p' a) _
            (access_cache-Follows (past_after past (a ∷ [])) c' p' a f.0
              (omega (arith, length-past_after past (a ∷ []))))
            λ (c'', p'', out') f'.
              Follows-append past p (a ∷ []) (a ∷ []) (c', p', out) (c'', p'', out') f f'
                (out ++ out')

  switch_instr-Follows :
      (past : List ℕ) (c : Cache) (p : Param) (en : Entry)
      → Simulates q past c p
      → length past + length (accesses_of en) < 2 ^ 32
      → Ensures (Follows q past p (accesses_of en)) (switch_instr c p en)
  unfolding switch_instr accesses_of
  switch_instr-Follows past c p en sim room = elim (Bool-cases (en.instr == b'M')) [
    | inl m ↦ simp m (access_twice-Follows past c p en.addr sim (rw m at room))
    | inr m ↦ elim (Bool-cases (en.instr == b'L' || en.instr == b'S')) [
      | inl l ↦ simp (m, l) (access_cache-Follows past c p en.addr sim (rw (m, l) at room))
      | inr l ↦ simp (m, l) (Follows-nil past c p sim)
    ]
  ]

  run_entry-Follows :
      (past : List ℕ) (c : Cache) (p : Param) (en : Entry)
      → Simulates q past c p
      → length past + length (accesses_of en) < 2 ^ 32
      → Ensures (Follows q past p (accesses_of en)) (run_entry c p en)
  unfolding run_entry
  run_entry-Follows past c p en sim room =
      Ensures-bind (Follows q past p (accesses_of en)) (Follows q past p (accesses_of en))
        (switch_instr c p en) _ (switch_instr-Follows past c p en sim room) λ (c', p', out) f. f

  pub run_trace-Follows :
      (past : List ℕ) (c : Cache) (p : Param) (entries : List Entry)
      → Simulates q past c p
      → length past + length (accesses entries) < 2 ^ 32
      → Ensures (Follows q past p (accesses entries)) (run_trace c p entries)
  unfolding run_trace accesses past_after policy
  run_trace-Follows past c p [] sim room = (sim, refl)
  run_trace-Follows past c p (en ∷ rest) sim room =
      let grown = length-append {0} (accesses_of en) (accesses rest) in
      Ensures-bind (Follows q past p (accesses_of en)) (Follows q past p (accesses (en ∷ rest)))
        (run_entry c p en) _ (run_entry-Follows past c p en sim (omega (arith, grown)))
        λ (c', p', out) f.
          Ensures-bind (Follows q (past_after past (accesses_of en)) p' (accesses rest))
            (Follows q past p (accesses (en ∷ rest))) (run_trace c' p' rest) _
            (run_trace-Follows (past_after past (accesses_of en)) c' p' rest f.0
              (omega (arith, grown, length-past_after past (accesses_of en))))
            λ (c'', p'', out') f'.
              Follows-append past p (accesses_of en) (accesses rest) (c', p', out) (c'', p'', out')
                f f' (out ++ out')
