-- ===== src/Bench/Loaded/Undisturbed.antt =====
-- The measuring thread of `measurePointerChaseWithLoad` (src/benchmark.cpp) follows the chain of nodes as if it
-- ran alone, and leaves all its samples.
use mio_xcena.Base.{
  ℕ, ◌+◌, ◌-◌, ◌/◌, ◌≤◌, ◌≡◌, refl, ◌≢◌, ap, sym, ◌∙◌, inl, leb, if◌then◌else◌, List, [], ◌∷◌, ◌++◌,
  length, length-append, arith, le→leb, lt→leb,
}
use native.Mathlib.Decide.{dec_le}
use mathlib.Core.Path.{subst}
use mio_xcena.Bench.Chase.{Pointers, chase, chase_size_bytes, node_size, shuffled, link_nodes}
use mio_xcena.Bench.Cycle.{chase_at_node, chase-next}
use mio_xcena.Bench.Loaded.{
  warmup_samples, num_samples, total_iterations, Measuring, idle, spinning, chasing, stopped,
  collected, Main, starting, joining_measurement, joining, joined, Run, Step, ready_measuring,
  start_measuring, chase_next, stop_load, collect, ready_loader, start_loader, load_read,
  load_write, end_loader, start_all, join_measurement, join, all_joined, Reach, start, later,
}

-- What the measuring thread has done, when the memory is `m` and the latencies before are `g`.
abbrev Sampled :
    (base : ℕ) → Pointers → (g : List ℕ) → Measuring → (buffer global : List ℕ) → Type 0
Sampled base m g idle buffer global = (length buffer ≡ 0) × (global ≡ g)
Sampled base m g spinning buffer global = (length buffer ≡ 0) × (global ≡ g)
Sampled base m g (chasing i current) buffer global =
    (i ≤ total_iterations)
    × (length buffer ≡ i - warmup_samples)
    × (global ≡ g)
    × (current ≡ chase i m base)
Sampled base m g stopped buffer global = (length buffer ≡ num_samples) × (global ≡ g)
Sampled base m g collected buffer global = length global ≡ length g + num_samples

-- The measuring thread is joined.
abbrev IsJoined : Main → Measuring → Type 0
IsJoined starting t = Unit {0}
IsJoined joining_measurement t = Unit {0}
IsJoined (joining k) t = t ≡ collected
IsJoined joined t = t ≡ collected

not-IsJoined : (w : Main) (t v : Measuring) → t ≢ collected → IsJoined w t → IsJoined w v
not-IsJoined starting t v ne h = tt
not-IsJoined joining_measurement t v ne h = tt
not-IsJoined (joining k) t v ne h = absurd (ne h)
not-IsJoined joined t v ne h = absurd (ne h)

module _ (base : ℕ) (m : Pointers) (g : List ℕ) where
  record Inv (s : Run) : Type 0 where
    sampled : Sampled base m g s.measuring s.latency_buffer s.global_latencies
    chain : (b : ℕ) → b + 8 ≤ base + chase_size_bytes → s.memory b ≡ m b
    joined_last : IsJoined s.main s.measuring

  module _ (num_load_threads size : ℕ)
      (at_node : (i : ℕ) → chase i m base + 8 ≤ base + chase_size_bytes) where
    -- One more sample behind the warm-up.
    next-length :
        (i cycles : ℕ) (buffer : List ℕ)
        → length buffer ≡ i - warmup_samples
        → length (if leb warmup_samples i then buffer ++ cycles ∷ [] else buffer)
          ≡ i + 1 - warmup_samples
    next-length i cycles buffer e = elim (dec_le warmup_samples i) [
      | yes past ↦
          rw (le→leb warmup_samples i past) (omega (arith, e, length-append buffer (cycles ∷ [])))
      | no early ↦ rw (lt→leb warmup_samples i (omega arith)) (omega (arith, e))
    ]

    step-Inv : {s t : Run} → Step num_load_threads base size s t → Inv s → Inv t
    unfolding chase
    step-Inv {s} (ready_measuring e) v =
        let had = subst (λ p. Sampled base m g p s.latency_buffer s.global_latencies) e v.sampled in
        record {
          sampled = had;
          chain = v.chain;
          joined_last = not-IsJoined s.main s.measuring spinning (rw e (λ f. cc)) v.joined_last;
        }
    step-Inv {s} (start_measuring e on) v =
        let had = subst (λ p. Sampled base m g p s.latency_buffer s.global_latencies) e v.sampled in
        record {
          sampled = (omega arith, omega (arith, had.0), had.1, refl);
          chain = v.chain;
          joined_last =
              not-IsJoined s.main s.measuring (chasing 0 base) (rw e (λ f. cc)) v.joined_last;
        }
    step-Inv {s} (chase_next i current cycles e lt) v =
        let had = subst (λ p. Sampled base m g p s.latency_buffer s.global_latencies) e v.sampled in
        let here : s.memory current ≡ m (chase i m base) =
          ap s.memory (had.3) ∙ v.chain (chase i m base) (at_node i) in
        record {
          sampled = (
            omega arith,
            next-length i cycles s.latency_buffer (had.1),
            had.2,
            here ∙ sym (chase-next i m base),
          );
          chain = v.chain;
          joined_last = not-IsJoined s.main s.measuring _ (rw e (λ f. cc)) v.joined_last;
        }
    step-Inv {s} (stop_load i current e le) v =
        let had = subst (λ p. Sampled base m g p s.latency_buffer s.global_latencies) e v.sampled in
        record {
          sampled = (omega (arith, had.0, had.1), had.2);
          chain = v.chain;
          joined_last = not-IsJoined s.main s.measuring stopped (rw e (λ f. cc)) v.joined_last;
        }
    step-Inv {s} (collect e) v =
        let had = subst (λ p. Sampled base m g p s.latency_buffer s.global_latencies) e v.sampled in
        record {
          sampled =
              length-append s.global_latencies s.latency_buffer
              ∙ (omega (arith, had.0, ap length (had.1)));
          chain = v.chain;
          joined_last = not-IsJoined s.main s.measuring collected (rw e (λ f. cc)) v.joined_last;
        }
    step-Inv (ready_loader t lt e) v = record {
      sampled = v.sampled;
      chain = v.chain;
      joined_last = v.joined_last;
    }
    step-Inv (start_loader t lt e on) v = record {
      sampled = v.sampled;
      chain = v.chain;
      joined_last = v.joined_last;
    }
    step-Inv (load_read t place lt e off) v = record {
      sampled = v.sampled;
      chain = v.chain;
      joined_last = v.joined_last;
    }
    step-Inv (load_write t place memory ge lt e off same) v = record {
      sampled = v.sampled;
      chain = λ b le. same b (inl (omega (arith, le))) ∙ v.chain b le;
      joined_last = v.joined_last;
    }
    step-Inv (end_loader t place lt e on) v = record {
      sampled = v.sampled;
      chain = v.chain;
      joined_last = v.joined_last;
    }
    step-Inv (start_all e full) v = record {
      sampled = v.sampled;
      chain = v.chain;
      joined_last = tt;
    }
    step-Inv (join_measurement e done) v = record {
      sampled = v.sampled;
      chain = v.chain;
      joined_last = done;
    }
    step-Inv {s} (join k bytes e lt done) v = record {
      sampled = v.sampled;
      chain = v.chain;
      joined_last = subst (λ w. IsJoined w s.measuring) e v.joined_last;
    }
    step-Inv {s} (all_joined e) v = record {
      sampled = v.sampled;
      chain = v.chain;
      joined_last = subst (λ w. IsJoined w s.measuring) e v.joined_last;
    }

    Reach-Inv : {s : Run} → Reach num_load_threads base size m g s → Inv s
    Reach-Inv start = record { sampled = (refl, refl); chain = λ b le. refl; joined_last = tt }
    Reach-Inv (later r st) = step-Inv st (Reach-Inv r)

-- The number of nodes of the chase region.
abbrev pub num_nodes : ℕ
num_nodes = chase_size_bytes / node_size

-- Whatever the load threads do, and in whatever order: before its round `i`, the measuring thread is where a
-- chase of `i` rounds alone arrives, and when all threads are joined, 200000 samples have been added to
-- the latencies. The numbers drawn for the shuffle are from 0 to `k` in round `k`.
pub measured_undisturbed :
    (num_load_threads base size : ℕ) (choice : ℕ → ℕ) (raw : Pointers) (g : List ℕ) (s : Run)
    → ((k : ℕ) → choice k ≤ k)
    → let linked = link_nodes base num_nodes (shuffled num_nodes choice) raw in
      Reach num_load_threads base size linked g s
      → ((i current : ℕ) → s.measuring ≡ chasing i current → current ≡ chase i linked base)
        × (s.main ≡ joined → length s.global_latencies ≡ length g + num_samples)
measured_undisturbed num_load_threads base size choice raw g s low h =
    let linked = link_nodes base num_nodes (shuffled num_nodes choice) raw in
    let at_node : (i : ℕ) → chase i linked base + 8 ≤ base + chase_size_bytes = λ i.
      let (node, lt, e) = chase_at_node base num_nodes choice raw (omega arith) low i in
      omega (arith, e) in
    let v = Reach-Inv base linked g num_load_threads size at_node h in
    (
      λ i current e.
          (subst (λ p. Sampled base linked g p s.latency_buffer s.global_latencies) e v.sampled).3,
      λ e.
          let there = subst (λ w. IsJoined w s.measuring) e v.joined_last in
          subst (λ p. Sampled base linked g p s.latency_buffer s.global_latencies) there v.sampled,
    )
