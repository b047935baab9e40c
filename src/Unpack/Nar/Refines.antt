-- ===== src/Unpack/Nar/Refines.antt =====
-- `writeNAR` makes the calls of the trace, and ends as the trace does.
pub mod Held
pub mod Files
use deltanar.Base.{
  ℕ, List, [], ◌∷◌, ◌++◌, ◌≡◌, refl, sym, ap, ◌∙◌, ◌↔◌, inl, inr, Bool, true, false, Option, none,
  some, Option-cases, Bool-cases, Result-cases, Error, Result, ok, err, panic, stuck, ◌>>=◌, ◌>>◌,
  of_option, or_panic, arith, All, library, length, get_elem?, if◌then◌else◌,
}
use mathlib.Core.Option.{some-injective}
use deltanar.Base.Text.{Text, text_eq, text_eq_iff}
use deltanar.Base.Host.{Host, Node, file, dir, link, special, Entries, no_entries, entry, mmap_open}
use deltanar.Unpack.Nar.Sink.{NarWriter, Header, State, put_header, put}
use deltanar.Unpack.Nar.Chunks.{Inputs, lookup_text, open_input, read_input_data}
use deltanar.Unpack.Nar.Trace.{
  Call, header, write, Trace, done, call, write_read, go_on, ◌⨾◌, one_call, feed, play,
}

module _ {W : Type 0} (nw : NarWriter W) (inp : Inputs) where
  -- Every file that is held was read from the target.
  pub record Fresh (s : State nw) : Type 0 where
    pub fds : All (λ (path, content). inp.host.open_file path ≡ some content) s.input_fds
    pub mapped : All (λ (path, content). mmap_open inp.host path ≡ ok content) s.input_data

  abbrev pub writer_of : Result (State nw) → Result nw.Writing
  writer_of r = r >>= λ s. ok s.writer

  abbrev pub FreshAfter : Result (State nw) → Type 0
  FreshAfter (ok s) = Fresh s
  FreshAfter _ = Unit {0}

  -- The routine's outcome `r` from the state `s` is the trace's, as far as the writer shows it.
  pub record Plays (t : Trace) (s : State nw) (r : Result (State nw)) : Type 0 where
    pub same : writer_of r ≡ play nw t s.writer
    pub fresh : FreshAfter r

  feed-append :
      (a b : List Call) (w : nw.Writing) → feed nw (a ++ b) w ≡ (feed nw a w >>= feed nw b)
  unfolding feed
  feed-append [] b w = refl
  feed-append (c ∷ a) b w = bind_cases (feed-append a b) (of_option library (one_call nw c w))
    where
      bind_cases :
          ((w' : nw.Writing) → feed nw (a ++ b) w' ≡ (feed nw a w' >>= feed nw b))
          → (r : Result nw.Writing)
          → (r >>= λ w'. feed nw (a ++ b) w') ≡ ((r >>= λ w'. feed nw a w') >>= feed nw b)
      bind_cases ih (ok w') = ih w'
      bind_cases ih (err e) = refl
      bind_cases ih panic = refl
      bind_cases ih stuck = refl

  -- How a list of calls ends, given the outcome of the calls.
  settle : Result (Unit {0}) → Result nw.Writing → Result nw.Writing
  settle outcome r = r >>= λ w. outcome >> ok w

  settle_ok :
      (t' : Trace) (r : Result nw.Writing)
      → (r >>= feed nw t'.calls >>= λ w. t'.outcome >> ok w) ≡ ((r >>= λ w. ok w) >>= play nw t')
  unfolding play
  settle_ok t' (ok w) = refl
  settle_ok t' (err e) = refl
  settle_ok t' panic = refl
  settle_ok t' stuck = refl

  settle_bad :
      (bad : Result nw.Writing) (t' : Trace) (r : Result nw.Writing)
      → (bad >>= play nw t') ≡ bad
      → (r >>= λ w. bad) ≡ ((r >>= λ w. bad) >>= play nw t')
  settle_bad bad t' (ok w) h = sym h
  settle_bad bad t' (err e) h = refl
  settle_bad bad t' panic h = refl
  settle_bad bad t' stuck h = refl

  play-go_on :
      (calls : List Call) (outcome : Result (Unit {0})) (t' : Trace) (w : nw.Writing)
      → play nw (go_on calls outcome t') w
        ≡ (play nw (record { calls = calls; outcome = outcome }) w >>= play nw t')
  unfolding play
  play-go_on calls (ok u) t' w = rw feed-append (settle_ok t' (feed nw calls w))
  play-go_on calls (err e) t' w = settle_bad (err e) t' (feed nw calls w) refl
  play-go_on calls panic t' w = settle_bad panic t' (feed nw calls w) refl
  play-go_on calls stuck t' w = settle_bad stuck t' (feed nw calls w) refl

  pub Plays-seq :
      (t t' : Trace) (s : State nw) (r : Result (State nw)) (f : State nw → Result (State nw))
      → Plays t s r
      → ((s' : State nw) → Fresh s' → Plays t' s' (f s'))
      → Plays (t ⨾ t') s (r >>= f)
  Plays-seq t t' s (ok s') f p k =
      let q = k s' p.fresh in
      record {
        same = q.same ∙ sym (play-go_on t.calls t.outcome t' s.writer ∙ rw (← p.same));
        fresh = q.fresh;
      }
  Plays-seq t t' s (err e) f p k = record {
    same = sym (play-go_on t.calls t.outcome t' s.writer ∙ rw (← p.same));
    fresh = tt;
  }
  Plays-seq t t' s panic f p k = record {
    same = sym (play-go_on t.calls t.outcome t' s.writer ∙ rw (← p.same));
    fresh = tt;
  }
  Plays-seq t t' s stuck f p k = record {
    same = sym (play-go_on t.calls t.outcome t' s.writer ∙ rw (← p.same));
    fresh = tt;
  }

  pub Plays-done : (s : State nw) → Fresh s → Plays done s (ok s)
  unfolding play feed
  Plays-done s v = record { same = refl; fresh = v }

  pub Plays-err :
      (e : Error) (s : State nw) → Plays (record { calls = []; outcome = err e }) s (err e)
  unfolding play feed
  Plays-err e s = record { same = refl; fresh = tt }

  pub Plays-panic : (s : State nw) → Plays (record { calls = []; outcome = panic }) s panic
  unfolding play feed
  Plays-panic s = record { same = refl; fresh = tt }

  pub Plays-stuck : (s : State nw) → Plays (record { calls = []; outcome = stuck }) s stuck
  unfolding play feed
  Plays-stuck s = record { same = refl; fresh = tt }

  -- One call of the writer.
  Plays-call :
      (c : Call) (s : State nw)
      → Fresh s
      → Plays
          (call c)
          s
          (do w ← of_option library (one_call nw c s.writer); ok (record s { writer = w }))
  unfolding play feed
  Plays-call c s v = elim (Option-cases (one_call nw c s.writer)) [
    | inl e ↦ record { same = rw e; fresh = rw e tt }
    | inr (w, e) ↦ record { same = rw e; fresh = rw e (record { fds = v.fds; mapped = v.mapped }) }
  ]

  pub put_header-Plays :
      (h : Header) (s : State nw) → Fresh s → Plays (call (header h)) s (put_header nw h s)
  unfolding put_header
  put_header-Plays h s v = Plays-call (header h) s v

  pub put-Plays :
      (bytes : List ℕ) (s : State nw) → Fresh s → Plays (call (write bytes)) s (put nw bytes s)
  unfolding put
  put-Plays bytes s v = Plays-call (write bytes) s v

  -- What is read is written, from a state whose writer is that of `s`.
  pub Plays-write_read :
      (r : Result (List ℕ)) (s s₁ : State nw)
      → s₁.writer ≡ s.writer
      → Fresh s₁
      → Plays (write_read r) s (r >>= λ bytes. put nw bytes s₁)
  Plays-write_read (ok bytes) s s₁ e v =
      let p = put-Plays bytes s₁ v in record { same = rw (← e) p.same; fresh = p.fresh }
  Plays-write_read (err x) s s₁ e v = Plays-err x s
  Plays-write_read panic s s₁ e v = Plays-panic s
  Plays-write_read stuck s s₁ e v = Plays-stuck s

  -- Reading through the files that are held gives what reading plainly gives.
  abbrev pub Agrees : State nw → Result (List ℕ) → Result (List ℕ × State nw) → Type 0
  Agrees s (ok content) r =
      (s₁ : State nw) × (r ≡ ok (content, s₁)) × (s₁.writer ≡ s.writer) × Fresh s₁
  Agrees s (err e) r = r ≡ err e
  Agrees s panic r = r ≡ panic
  Agrees s stuck r = r ≡ stuck

  pub Plays-open :
      (s : State nw) (plain : Result (List ℕ)) (held : Result (List ℕ × State nw))
      (g : List ℕ → Result (List ℕ))
      → Agrees s plain held
      → Plays
          (write_read (plain >>= g))
          s
          (do (content, s₁) ← held; bytes ← g content; put nw bytes s₁)
  Plays-open s (ok content) held g (s₁, e, w, v) = rw e (Plays-write_read (g content) s s₁ w v)
  Plays-open s (err x) held g e = rw e (Plays-err x s)
  Plays-open s panic held g e = rw e (Plays-panic s)
  Plays-open s stuck held g e = rw e (Plays-stuck s)
