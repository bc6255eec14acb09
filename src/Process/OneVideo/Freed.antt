-- ===== src/Process/OneVideo/Freed.antt =====
-- The rows that a video of vios/process/engine.py holds while its passes run, by the token of its
-- claim.
use text.Mathlib.TextPositions.{eq_refl}
use mathlib.Core.List.{Memᴰ, flatten}
use mathlib.Core.Bool.{false≢true}
use vios_manus.Common.{
  ℕ, ◌≡◌, refl, sym, ap, ◌∙◌, Bool, true, false, none, String, List, [], ◌∷◌, map, All, All-imp,
  All-elem, All-intro_elem, AllPairs, count, select, is_text, arith, inl, inr, eq_iff,
}
use vios_manus.Sql.{update, update-All, update-All_to}
use vios_manus.Coverage.{running, Row, Conn, Worker, at}
use vios_manus.Coverage.Claim.{claim_for, with_token, lease}
use vios_manus.Coverage.Exclusive.{Taken, AskedFor, claim_for_takes_free}
use vios_manus.Coverage.Table.{IsSoundTable}
use vios_manus.Coverage.Finish
use vios_manus.Coverage.Finish.{
  renew_row, release_row, done_row, fail_row, defer_row, skip_row, attempts_at, fail_state,
  fail_next_try,
}
use vios_manus.Coverage.History.{Call, perform, run}
use vios_manus.Registry.Lookup.{has}
use vios_manus.Process.OneVideo.Claimed.{
  Settles, releasing, finishing, failing, deferring, skipping, IsPass, last_call, beating,
}
use vios_manus.Process.OneVideo.Calls.{SettlesAll, run-append}

module _ (key token : String) where
  -- A row that carries the token is a running pass of the video that is still to be settled.
  abbrev pub HeldBy : List String → Row → Type 0
  HeldBy todo r =
      is_text r.token token ≡ true
      → (r.video_key ≡ key) × (has r.component todo ≡ true) × (r.state ≡ running)

  freed :
      (cid : String) (rest : List String) (p : Row → Bool) (f : Row → Row) (rows : List Row)
      → ((r : Row) → (f r).token ≡ none)
      → ((r : Row) → at key cid r ≡ true → r.state ≡ running → p r ≡ true)
      → All (HeldBy (cid ∷ rest)) rows
      → All (HeldBy rest) (update p f rows)
  unfolding has at
  freed cid rest p f rows clears hits h =
      update-All_to (HeldBy (cid ∷ rest)) (HeldBy rest) p f rows
        (λ r _ _ _ t. absurd (false≢true (rw (clears r) at t)))
        (λ r held out t.
          let (k, d, s) = held t in
          ground (
            arith,
            k,
            d,
            s,
            out,
            hits r,
            eq_iff r.video_key key,
            eq_iff r.component cid,
            eq_iff cid r.component,
          ))
        h

  settles-HeldBy :
      (cid : String) (rest : List String) (x : Call) (c : Conn)
      → Settles key cid x
      → All (HeldBy (cid ∷ rest)) c.rows
      → All (HeldBy rest) (perform x c).rows
  unfolding perform Finish.release Finish.finish Finish.fail Finish.defer Finish.skip
  settles-HeldBy cid rest x c releasing h =
      freed cid rest _ release_row c.rows (unfold release_row in λ r. refl)
        (λ r a e. ground (arith, a, e)) h
  settles-HeldBy cid rest x c (finishing s n v o now) h =
      freed cid rest (at key cid) (done_row now s n v o) c.rows (unfold done_row in λ r. refl)
        (λ r a _. a) h
  settles-HeldBy cid rest x c (failing why now) h =
      freed cid rest (at key cid) _ c.rows (unfold fail_row in λ r. refl) (λ r a _. a) h
  settles-HeldBy cid rest x c (deferring why after now) h =
      freed cid rest (at key cid) (defer_row now why after) c.rows (unfold defer_row in λ r. refl)
        (λ r a _. a) h
  settles-HeldBy cid rest x c (skipping why now) h =
      freed cid rest (at key cid) (skip_row now why) c.rows (unfold skip_row in λ r. refl)
        (λ r a _. a) h

  pass-HeldBy :
      (w : Worker) (cid : String) (rest : List String) (xs : List Call) (c : Conn)
      → IsPass w key cid xs
      → All (HeldBy (cid ∷ rest)) c.rows
      → All (HeldBy rest) (run xs c).rows
  unfolding run perform Finish.renew renew_row
  pass-HeldBy w cid rest _ c (last_call x s) h = settles-HeldBy cid rest x c s h
  pass-HeldBy w cid rest _ c (beating progress now xs p) h =
      pass-HeldBy w cid rest xs _ p
        (update-All (HeldBy (cid ∷ rest)) _ (renew_row now progress) (λ r k _. k) c.rows h)

  pub SettlesAll-HeldBy :
      (w : Worker) (out : List String) (passes : List (List Call)) (c : Conn)
      → SettlesAll w key true out passes
      → All (HeldBy out) c.rows
      → All (HeldBy []) (run (flatten passes) c).rows
  unfolding run flatten
  SettlesAll-HeldBy w [] [] c s h = h
  SettlesAll-HeldBy w [] (x ∷ xs) c s h = elim s [ ]
  SettlesAll-HeldBy w (cid ∷ rest) [] c s h = elim s [ ]
  SettlesAll-HeldBy w (cid ∷ rest) (x ∷ xs) c (s, ss) h =
      rw (run-append x (flatten xs) c)
        (SettlesAll-HeldBy w rest xs (run x c) ss (pass-HeldBy w cid rest x c s h))

  pub HeldBy-none :
      (rows : List Row) → All (HeldBy []) rows → count (λ r. is_text r.token token) rows ≡ 0
  unfolding count has
  HeldBy-none [] h = refl
  HeldBy-none (r ∷ rs) h = ground (arith, h.0, HeldBy-none rs h.1)

  -- A row that carries the token has its component among those that are returned.
  named :
      {r : Row} (rows : List Row)
      → Memᴰ r rows
      → is_text r.token token ≡ true
      → has r.component (map (λ q. q.component) (with_token token rows)) ≡ true
  unfolding has select
  named [] m t = elim m [ ]
  named {r} (y ∷ ys) (Memᴰ.head e) t = ground (
    arith,
    ap (λ q. is_text q.token token) e,
    ap (λ q. q.component) e,
    eq_refl r.component,
    eq_iff y.component r.component,
  )
  named {r} (y ∷ ys) (Memᴰ.tail m) t = ground (arith, named ys m t)

  -- After the claim, what carries the token is a running pass of the video.
  leased_rows :
      (w : Worker) (now : ℕ) (Asked : Row → Type 0) (rows rows' : List Row)
      → ((r : Row) → Asked r → r.video_key ≡ key)
      → All (λ r. is_text r.token token ≡ false) rows
      → AllPairs (Taken w now token Asked) rows rows'
      → All (λ r. is_text r.token token ≡ true → (r.video_key ≡ key) × (r.state ≡ running)) rows'
  leased_rows w now Asked [] [] asks new q = tt
  leased_rows w now Asked [] (y ∷ ys) asks new q = elim q [ ]
  leased_rows w now Asked (x ∷ xs) [] asks new q = elim q [ ]
  leased_rows w now Asked (x ∷ xs) (y ∷ ys) asks new q =
      (one q.0, leased_rows w now Asked xs ys asks new.1 q.1)
    where
      one :
          Taken w now token Asked x y
          → is_text y.token token ≡ true
          → (y.video_key ≡ key) × (y.state ≡ running)
      one (inl e) t = absurd (false≢true (sym new.0 ∙ rw e at t))
      one (inr (free, a, e)) t = let a = asks x a in rw e (unfold lease in (a, refl))

  -- After the claim every row with the token is a running pass of the video among the components
  -- that the claim returned.
  pub claim_for-HeldBy :
      (w : Worker) (ids : List String) (now : ℕ) (c : Conn) (out : List String)
      → IsSoundTable c.rows
      → All (λ r. is_text r.token token ≡ false) c.rows
      → let (c', took) = claim_for w key ids now token c in
        ((i : String) → has i took ≡ true → has i out ≡ true) → All (HeldBy out) c'.rows
  unfolding claim_for
  claim_for-HeldBy w [] now c out h new covers =
      All-imp _ (HeldBy out) (λ r none_yet t. absurd (false≢true (sym none_yet ∙ t))) c.rows new
  claim_for-HeldBy w (x ∷ xs) now c out h new covers =
      let (c', took) = claim_for w key (x ∷ xs) now token c in
      let held =
        leased_rows w now (AskedFor w c key (x ∷ xs)) c.rows c'.rows (λ r a. a.0) new
          (claim_for_takes_free w now token c key (x ∷ xs) h) in
      All-intro_elem (HeldBy out) c'.rows λ r m t.
        let (k, s) = All-elem _ c'.rows held m t in (k, covers r.component (named c'.rows m t), s)
