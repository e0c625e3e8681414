-- ===== src/Scheduler/Heft/Rounds.antt =====
-- The loop over the candidates in internal/coordinator/scheduler/heft.go, round by round.
use hybridgrid.Prelude.{
  ◌≡◌, refl, sym, ◌∙◌, ◌⊎◌, inl, inr, String, str_eq, eq_iff, true, false, Option, none, some, List,
  [], ◌∷◌, arith, Memᴰ, Bool-cases, subst, for_members,
}
use hybridgrid.Prelude.Memᴰ
use hybridgrid.Prelude.Float.{Float}
use hybridgrid.Prelude.Maps.{lookup, lookup-insert, lookup-insert_self}
use hybridgrid.Metrics.Ewma.{Ewma, update}
use hybridgrid.Registry.Types.{WorkerInfo}
use hybridgrid.Scheduler.Heft.{
  Loop, wbar_locked, prior, warmed, eft, is_better, consider, consider_all, loop_start,
}

module _ (F : Float) (alpha : F.Carrier) where
  open F use {Carrier, lt, lt_irrefl, lt_trans}

  update-init : (v : Carrier) (e : Ewma F) → (update F v e).init ≡ true
  unfolding update
  update-init v e = ground arith

  warmed-init :
      (wbar : List (String × Ewma F)) (w : WorkerInfo) → (warmed F alpha wbar w).init ≡ true
  unfolding warmed
  warmed-init wbar w = ground (arith, update-init (prior F w) (wbar_locked F alpha wbar w.id))

  warmed-known :
      (wbar : List (String × Ewma F)) (w : WorkerInfo) (e : Ewma F)
      → lookup w.id wbar ≡ some e
      → e.init ≡ true
      → warmed F alpha wbar w ≡ e
  unfolding warmed wbar_locked
  warmed-known wbar w e h k = rw (h, wbar_locked) (rw k)

  -- A worker whose estimate is in the map and which would not finish before the best one.
  no-overtaking : (y b n : Carrier) → lt y b ≡ false → lt n b ≡ true → lt y n ≡ false
  no-overtaking y b n h k = elim (Bool-cases (lt y n)) [
    | inl e ↦ let through : lt y b ≡ true = lt_trans y n b e k in cc
    | inr e ↦ e
  ]

  abbrev pub Beaten : Loop F → WorkerInfo → Type 0
  Beaten l x =
      (e : Ewma F) × (lookup x.id l.wbar ≡ some e)
      × (e.init ≡ true)
      × (lt (eft F x e.value) l.best_eft ≡ false)

  -- The best worker so far, with its finish time.
  abbrev pub Leads : Loop F → WorkerInfo → Type 0
  Leads l b =
      (l.best ≡ some b)
      × ((e : Ewma F) × (lookup b.id l.wbar ≡ some e)
          × (e.init ≡ true)
          × (l.best_eft ≡ eft F b e.value))

  -- The map keeps what it knows.
  consider-keeps :
      (w x : WorkerInfo) (l : Loop F) (e : Ewma F)
      → lookup x.id l.wbar ≡ some e
      → e.init ≡ true
      → lookup x.id (consider F alpha w l).wbar ≡ some e
  unfolding consider
  consider-keeps w x l e h k = elim (Bool-cases (str_eq w.id x.id)) [
    | inl same ↦
        let here : w.id ≡ x.id = (eq_iff w.id x.id).0 same in
        let known : warmed F alpha l.wbar w ≡ e =
          warmed-known l.wbar w e (subst (λ i. lookup i l.wbar ≡ some e) (sym here) h) k in
        ground (arith, lookup-insert w.id x.id (warmed F alpha l.wbar w) l.wbar)
    | inr other ↦ ground (arith, lookup-insert w.id x.id (warmed F alpha l.wbar w) l.wbar)
  ]

  consider-found :
      (w : WorkerInfo) (l : Loop F)
      → lookup w.id (consider F alpha w l).wbar ≡ some (warmed F alpha l.wbar w)
  unfolding consider
  consider-found w l = lookup-insert_self w.id (warmed F alpha l.wbar w) l.wbar

  -- The finish time of `w` in this round.
  abbrev time : WorkerInfo → Loop F → Carrier
  time w l = eft F w (warmed F alpha l.wbar w).value

  consider-takes :
      (w : WorkerInfo) (l : Loop F)
      → is_better F l.best l.best_eft (time w l) ≡ true
      → ((consider F alpha w l).best ≡ some w) × ((consider F alpha w l).best_eft ≡ time w l)
  unfolding consider
  consider-takes w l h = ground arith

  consider-leaves :
      (w : WorkerInfo) (l : Loop F)
      → is_better F l.best l.best_eft (time w l) ≡ false
      → ((consider F alpha w l).best ≡ l.best) × ((consider F alpha w l).best_eft ≡ l.best_eft)
  unfolding consider
  consider-leaves w l h = ground arith

  is_better-some :
      (o : Option WorkerInfo) (b : WorkerInfo) (x y : Carrier)
      → o ≡ some b
      → is_better F o x y ≡ lt y x
  unfolding is_better
  is_better-some none b x y h = cc
  is_better-some (some c) b x y h = refl

  -- A worker that is taken leads, and does not beat itself.
  takes-Leads :
      (w : WorkerInfo) (l : Loop F)
      → is_better F l.best l.best_eft (time w l) ≡ true
      → Leads (consider F alpha w l) w × Beaten (consider F alpha w l) w
  takes-Leads w l h =
      let (best, at) = consider-takes w l h in
      let e = warmed F alpha l.wbar w in
      (
        (best, (e, consider-found w l, warmed-init l.wbar w, at)),
        (e, consider-found w l, warmed-init l.wbar w, rw at (lt_irrefl (time w l))),
      )

  consider-first :
      (w : WorkerInfo) (l : Loop F)
      → l.best ≡ none
      → Leads (consider F alpha w l) w × Beaten (consider F alpha w l) w
  unfolding is_better
  consider-first w l h = takes-Leads w l (ground arith)

  -- One round with a leader: it goes on leading or the new worker does, the new worker does not beat
  -- the leader, and who did not beat the old leader does not beat the new one.
  consider-next :
      (w b : WorkerInfo) (l : Loop F)
      → Leads l b
      → ((Leads (consider F alpha w l) b) ⊎ (Leads (consider F alpha w l) w))
        × Beaten (consider F alpha w l) w
        × ((x : WorkerInfo) → Beaten l x → Beaten (consider F alpha w l) x)
  consider-next w b l (leads, (e, found, init, at)) = elim (Bool-cases (lt (time w l) l.best_eft)) [
    | inl faster ↦
        let taken : is_better F l.best l.best_eft (time w l) ≡ true =
          is_better-some l.best b l.best_eft (time w l) leads ∙ faster in
        let (lead, beaten) = takes-Leads w l taken in
        (
          inr lead,
          beaten,
          λ x (e', found', init', slower). (
            e',
            consider-keeps w x l e' found' init',
            init',
            rw (consider-takes w l taken).1 (no-overtaking _ _ _ slower faster),
          ),
        )
    | inr slow ↦
        let left : is_better F l.best l.best_eft (time w l) ≡ false =
          is_better-some l.best b l.best_eft (time w l) leads ∙ slow in
        let (best, same) = consider-leaves w l left in
        (
          inl (best ∙ leads, (e, consider-keeps w b l e found init, init, same ∙ at)),
          (warmed F alpha l.wbar w, consider-found w l, warmed-init l.wbar w, rw same slow),
          λ x (e', found', init', slower).
              (e', consider-keeps w x l e' found' init', init', rw same slower),
        )
  ]

  -- What a list of workers has gone through: one of them leads and none beats it.
  abbrev pub Settled : List WorkerInfo → Loop F → Type 0
  Settled ws l =
      ((b : WorkerInfo) × Memᴰ b ws × Leads l b) × ((x : WorkerInfo) → Memᴰ x ws → Beaten l x)

  consider_all-next :
      (ws : List WorkerInfo) (b : WorkerInfo) (l : Loop F)
      → Leads l b
      → ((c : WorkerInfo) × Memᴰ c (b ∷ ws) × Leads (consider_all F alpha ws l) c)
        × ((x : WorkerInfo) → Beaten l x → Beaten (consider_all F alpha ws l) x)
        × ((x : WorkerInfo) → Memᴰ x ws → Beaten (consider_all F alpha ws l) x)
  unfolding consider_all
  consider_all-next [] b l h = ((b, Memᴰ.head refl, h), λ x k. k, λ x m. absurd (Memᴰ.not-nil m))
  consider_all-next (w ∷ ws) b l h =
      let (who, beaten, kept) = consider-next w b l h in
      elim who [
        | inl old ↦
            let ((c, m, lead), on, all) = consider_all-next ws b (consider F alpha w l) old in
            (
              (c, behind c m, lead),
              λ x k. on x (kept x k),
              for_members (Beaten (consider_all F alpha ws (consider F alpha w l))) w ws
                  (on w beaten) all,
            )
        | inr new ↦
            let ((c, m, lead), on, all) = consider_all-next ws w (consider F alpha w l) new in
            (
              (c, Memᴰ.tail m, lead),
              λ x k. on x (kept x k),
              for_members (Beaten (consider_all F alpha ws (consider F alpha w l))) w ws
                  (on w beaten) all,
            )
      ]
    where
      behind : (c : WorkerInfo) → Memᴰ c (b ∷ ws) → Memᴰ c (b ∷ w ∷ ws)
      behind c m = elim (Memᴰ.cases_cons m) [
        | inl e ↦ Memᴰ.head e
        | inr later ↦ Memᴰ.tail (Memᴰ.tail later)
      ]

  -- The loop over a list that is not empty.
  pub consider_all-Settled :
      (w : WorkerInfo) (ws : List WorkerInfo) (wbar : List (String × Ewma F))
      → Settled (w ∷ ws) (consider_all F alpha (w ∷ ws) (loop_start F wbar))
  unfolding consider_all loop_start
  consider_all-Settled w ws wbar =
      let (lead, beaten) = consider-first w (loop_start F wbar) refl in
      let (winner, on, all) =
        consider_all-next ws w (consider F alpha w (loop_start F wbar)) lead in
      (
        winner,
        for_members (Beaten (consider_all F alpha ws (consider F alpha w (loop_start F wbar)))) w ws
            (on w beaten) all,
      )
