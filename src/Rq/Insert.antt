-- ===== src/Rq/Insert.antt =====
-- `add` inserts the range of the new block, on every path.
use tcpincast.Base.{
  ℕ, ◌+◌, ◌<◌, ◌≡◌, refl, ◌∙◌, sym, ap, subst, ◌≢◌, true, false, none, some, List, [], ◌∷◌, ◌++◌,
  arith, zip_up, map-zip_up, map-append, Bool-cases, Option-cases, inl, inr, is_nil, length,
  length-append, All,
}
use tcpincast.Rq.Defs.{Seg, Rq}
use tcpincast.Rq.Coalesce.{Outcome}
use tcpincast.Rq.Sides.{New, merge}
use tcpincast.Rq.Add.{Place, Sweep, sweep, swept, upto_q, from_q, first_of_p, rest_of_p}
use tcpincast.Rq.Ranges.{Range, range_of, ranges, insert_range, Sep, width}
use tcpincast.Rq.Zip.{Joined, width-zip_up, Sep-zip_up}
use tcpincast.Rq.Place.{Holds, EndsBy}
use tcpincast.Rq.Sweep.{
  Hits, sweep-block, sweep-Beyond, sweep-Sep, sweep-insert, sweep-total, sweep-length, sweep-still,
  sweep-exact,
}
use tcpincast.Rq.Search.{upto-from, from-BeginsFrom, upto-Hits}
use tcpincast.Rq.Rejoin.{
  width-ranges, length-zip_up, refold, Sep-left, is_nil-eq, zip_up-eq_nil, insert-present,
  merge_all, insert-behind,
}

-- A place in the queue where the block has been looked up.
module _ (w : New) (q : Rq) (pl : Place) (nonempty : w.start < w.end)
    (joined : Joined (ranges pl.before) (ranges pl.after)) (sep : Sep (ranges pl.after))
    (left : EndsBy w.start pl.before) (above : All (λ x. w.start < x.endseq) pl.after)
    (behind : pl.after ≢ []) (front : pl.before ≡ [] → upto_q w.end pl.after ≢ [])
    (total : q.total ≡ width (zip_up (ranges pl.before) (ranges pl.after))) where
  abbrev mid : List Seg
  mid = upto_q w.end pl.after

  abbrev rest : List Seg
  rest = from_q w.end pl.after

  abbrev held : List Range
  held = zip_up (ranges pl.before) (ranges pl.after)

  split : ranges (mid ++ rest) ≡ ranges pl.after
  split = ap ranges (upto-from w.end pl.after)

  hits : All (Hits w) mid
  hits = upto-Hits w pl.after above

  joined' : Joined (ranges pl.before) (ranges (mid ++ rest))
  joined' = subst (Joined (ranges pl.before)) (sym split) joined

  sep' : Sep (ranges (mid ++ rest))
  sep' = subst Sep (sym split) sep

  abbrev result : Sweep
  result = sweep mid w q

  module _ (clean : result.exact ≡ none) where
    abbrev kept : List Range
    kept = ranges (result.kept ++ rest)

    kept-Sep : Sep kept
    kept-Sep = sweep-Sep mid rest w q clean sep'

    kept-insert :
        insert_range w.start w.end (zip_up (ranges pl.before) kept)
        ≡ insert_range w.start w.end held
    kept-insert = sym (
        ap (λ x. insert_range w.start w.end (zip_up (ranges pl.before) x)) (sym split)
        ∙ insert-behind w.start w.end pl.before (ranges (mid ++ rest)) kept left nonempty joined'
            λ s h. sweep-insert s w.end mid rest w q clean hits h (omega arith))

    kept-total : result.queue.total ≡ width (zip_up (ranges pl.before) kept)
    kept-total = omega (
      arith,
      sweep-total (width (ranges pl.before) + width (ranges rest)) mid w q clean,
      width-zip_up (ranges pl.before) kept,
      width-zip_up (ranges pl.before) (ranges pl.after),
      width-ranges mid rest,
      width-ranges result.kept rest,
      ap width split,
    )

    kept-Joined : Joined (ranges pl.before) kept
    kept-Joined = Joined-kept pl.before refl
      where
        Joined-kept : (b : List Seg) → pl.before ≡ b → Joined (ranges b) kept
        Joined-kept [] e = tt
        Joined-kept (p ∷ b) e =
            let j = subst (λ x. Joined (ranges x) (ranges (mid ++ rest))) e joined' in
            (j.0, sweep-Beyond p.endseq mid rest w q clean sep' j.1, j.2)

  -- The queue after the sweep.
  abbrev visited : Sweep
  visited = record result { kept = first_of_p pl.before ++ result.kept }

  shape :
      zip_up (rest_of_p pl.before) (visited.kept ++ from_q visited.block.end pl.after)
      ≡ zip_up pl.before (result.kept ++ rest)
  shape = rw (sweep-block mid w q).1 (refold pl.before result.kept rest)

  module _ (again : New → Rq → Outcome)
      (retry : (w' : New) (q' : Rq)
        → w'.start ≡ w.start
        → w'.end ≡ w.end
        → Sep (ranges q'.fifo)
        → q'.total ≡ width (ranges q'.fifo)
        → length q'.fifo < length (zip_up pl.before pl.after)
        → Holds (insert_range w.start w.end (ranges q'.fifo)) (again w' q')) where
    swept_exact :
        (f : ℕ)
        → result.exact ≡ some f
        → Holds (insert_range w.start w.end held) (swept again pl visited)
    unfolding swept
    swept_exact f x =
        rw (x, shape)
          (let e = sweep-exact mid w q f x hits (Sep-left mid rest sep') in
            let same : ranges (zip_up pl.before (result.kept ++ rest))
                ≡ zip_up (ranges pl.before) (ranges (mid ++ rest)) =
              map-zip_up range_of pl.before (result.kept ++ rest)
              ∙ ap (zip_up (ranges pl.before)) (
                  map-append range_of result.kept rest
                  ∙ ap (λ k. k ++ ranges rest) e.1
                  ∙ sym (map-append range_of mid rest)) in
            let present = insert-present w pl.before mid rest nonempty e.0 joined' sep' in
            let held' : zip_up (ranges pl.before) (ranges (mid ++ rest)) ≡ held =
              ap (zip_up (ranges pl.before)) split in
            let all : zip_up (ranges pl.before) (ranges (mid ++ rest))
                ≡ insert_range w.start w.end held =
              sym present ∙ ap (insert_range w.start w.end) held' in
            (same ∙ all, ap (λ (z : Rq). z.total) e.2 ∙ total ∙ ap width (sym held' ∙ all)))

    swept_nil :
        (clean : result.exact ≡ none)
        → zip_up pl.before (result.kept ++ rest) ≡ []
        → Holds (insert_range w.start w.end held) (swept again pl visited)
    unfolding swept
    swept_nil x n =
        let gone : zip_up (ranges pl.before) (kept x) ≡ [] =
          sym (map-zip_up range_of pl.before (result.kept ++ rest)) ∙ ap ranges n in
        let one : insert_range w.start w.end held ≡ record { lo = w.start; hi = w.end } ∷ [] =
          sym (kept-insert x)
          ∙ ap (insert_range w.start w.end) gone
          ∙ (unfold insert_range in refl) in
        rw
          (
            x,
            shape,
            n,
            one,
            (zip_up-eq_nil pl.before (result.kept ++ rest) n).0,
            (sweep-block mid w q).0,
            (sweep-block mid w q).1,
          )
          (refl, omega (arith, kept-total x, ap width gone))

    swept_again :
        (clean : result.exact ≡ none)
        → is_nil (zip_up pl.before (result.kept ++ rest)) ≡ false
        → result.altered ≡ true
        → Holds (insert_range w.start w.end held) (swept again pl visited)
    unfolding swept
    swept_again x n f =
        rw (x, shape, n, f)
          (subst
            (λ r. Holds r (
              again result.block
                (record result.queue { fifo = zip_up pl.before (result.kept ++ rest) })))
            (ap (insert_range w.start w.end) (map-zip_up range_of pl.before (result.kept ++ rest))
              ∙ kept-insert x)
            (retry result.block
              (record result.queue { fifo = zip_up pl.before (result.kept ++ rest) })
              (sweep-block mid w q).0 (sweep-block mid w q).1
              (subst Sep (sym (map-zip_up range_of pl.before (result.kept ++ rest)))
                (Sep-zip_up (ranges pl.before) (kept x) (kept-Joined x) (kept-Sep x)))
              (kept-total x ∙ ap width (sym (map-zip_up range_of pl.before (result.kept ++ rest))))
              (omega (
                arith,
                length-zip_up pl.before (result.kept ++ rest),
                length-zip_up pl.before pl.after,
                length-append {0} result.kept rest,
                length-append {0} mid rest,
                ap length (upto-from w.end pl.after),
                (sweep-length mid w q x).1 f,
              ))))

    swept_still :
        (clean : result.exact ≡ none)
        → is_nil (zip_up pl.before (result.kept ++ rest)) ≡ false
        → result.altered ≡ false
        → Holds (insert_range w.start w.end held) (swept again pl visited)
    unfolding swept
    swept_still x n f =
        let st = sweep-still mid w q x f hits in
        rw (x, shape, n, f, st.2, st.1, st.0)
          (subst
            (λ r.
              Holds (insert_range w.start w.end (zip_up (ranges pl.before) r))
                (merge pl.before mid rest w (record q { fifo = zip_up pl.before (mid ++ rest) })))
            split
            (merge_all w (record q { fifo = zip_up pl.before (mid ++ rest) }) pl.before mid rest
              (record {
                nonempty = nonempty;
                joined = joined';
                sep = sep';
                left = left;
                right = from-BeginsFrom w.end pl.after;
                total = total ∙ ap (λ r. width (zip_up (ranges pl.before) r)) (sym split);
                over = st.3;
              })
              front (rw (upto-from w.end pl.after) behind)))

    -- Whatever the sweep finds, the block ends up inserted.
    pub swept_inserts : Holds (insert_range w.start w.end held) (swept again pl visited)
    swept_inserts = elim (Option-cases result.exact) [
      | inr (f, x) ↦ swept_exact f x
      | inl x ↦ elim (Bool-cases (is_nil (zip_up pl.before (result.kept ++ rest)))) [
        | inl n ↦ swept_nil x (is_nil-eq _ n)
        | inr n ↦ elim (Bool-cases result.altered) [
          | inl f ↦ swept_again x n f
          | inr f ↦ swept_still x n f
        ]
      ]
    ]
