-- ===== src/External/Changes.antt =====
-- The changes that the critical sections make to the state, and how the invariant survives each.
use lace.Prelude.{
  ℕ, ◌+◌, ◌-◌, ◌<◌, ◌⊎◌, ◌≡◌, refl, sym, ◌∙◌, true, false, ◌&&◌, none, some, inl, inr, ◌==◌, update,
  arith, total-change, total-ext, le-total,
}
use lace.External.{
  Kind, shared, exclusive, Pc, idle, asleep, draining, posting, queued, taken, finished, Externals,
}
use lace.External.Invariant.{
  shares, is_lone, is_owner, is_queued, sharing, Core, Sleepers, Inv, lone_owner,
}

module _ {n : ℕ} {s : Externals} (inv : Inv n s) (i : ℕ) (here : i < n) where
  open inv use {core, sleepers}

  -- A step between points that agree on what is counted, owned and queued.
  pub goto-Inv :
      (q : Pc)
      → shares q ≡ shares (s.pc i)
      → is_owner q ≡ is_owner (s.pc i)
      → is_lone q ≡ is_lone (s.pc i)
      → is_queued q ≡ is_queued (s.pc i)
      → (q ≡ queued exclusive → s.pc i ≡ queued exclusive)
      → ((k : Kind) → q ≡ asleep k false → s.is_exclusive ≡ true)
      → (q ≡ draining false → 0 < s.counter)
      → Inv n (record s { pc = update s.pc i q })
  goto-Inv q es eo el eq ee wait empty = record {
    core = record {
      counts = core.counts ∙ total-ext (sharing s.pc) _ n (λ j p. ground arith);
      owned = λ e. let (j, p, o) = core.owned e in (j, p, ground arith);
      owners = λ j p o. core.owners j p (ground arith);
      one = λ j k p r o t. core.one j k p r (ground arith) (ground arith);
      alone = λ j p l. core.alone j p (ground arith);
      offered = λ j e. ground (arith, core.offered j e);
      listed = λ j p r. ground (arith, core.listed j p, ee);
    };
    sleepers = record {
      waits = λ j k p e. ground (arith, sleepers.waits j k p, wait k);
      drains = λ j p e. ground (arith, sleepers.drains j p);
    };
  }

  -- A shared task is counted in.
  pub share-Inv :
      shares (s.pc i) ≡ 0
      → is_owner (s.pc i) ≡ false
      → is_queued (s.pc i) ≡ false
      → s.is_exclusive ≡ false
      → Inv n (record s { counter = s.counter + 1; pc = update s.pc i (posting shared none) })
  share-Inv es eo eq free = record {
    core = record {
      counts = ground (
        arith,
        core.counts,
        total-change (sharing s.pc) (sharing (update s.pc i (posting shared none))) n i here
            (λ j ne. ground arith),
      );
      owned = λ e. cc;
      owners = λ j p o. ground (arith, core.owners j p);
      one = λ j k p r o t. ground (arith, core.owners j p);
      alone = λ j p l. ground (arith, lone_owner (s.pc j), core.owners j p);
      offered = λ j e. ground (arith, core.offered j e);
      listed = λ j p r. core.listed j p (ground arith);
    };
    sleepers = record {
      waits = λ j k p e. ground (arith, sleepers.waits j k p);
      drains = λ j p e. omega arith;
    };
  }

  -- Thread `i` sets the flag.
  pub own-Inv :
      (q : Pc)
      → shares (s.pc i) ≡ 0
      → is_queued (s.pc i) ≡ false
      → s.is_exclusive ≡ false
      → shares q ≡ 0
      → is_owner q ≡ true
      → is_queued q ≡ false
      → (is_lone q ≡ true → s.counter ≡ 0)
      → (q ≡ draining false → 0 < s.counter)
      → Inv n (record s { is_exclusive = true; pc = update s.pc i q })
  own-Inv q es eq free fs fo fq alone empty = record {
    core = record {
      counts = core.counts ∙ total-ext (sharing s.pc) _ n (λ j p. ground arith);
      owned = λ e. (i, here, ground arith);
      owners = λ j p o. refl;
      one = λ j k p r o t. ground (arith, core.owners j p, core.owners k r);
      alone = λ j p l. ground (arith, alone, lone_owner (s.pc j), core.owners j p);
      offered = λ j e. ground (arith, core.offered j e);
      listed = λ j p r. ground (arith, core.listed j p);
    };
    sleepers = record {
      waits = λ j k p e. refl;
      drains = λ j p e. ground (arith, sleepers.drains j p, empty);
    };
  }

  -- The owner of the flag has waited.
  pub drain-Inv :
      (q : Pc)
      → shares (s.pc i) ≡ 0
      → is_queued (s.pc i) ≡ false
      → is_owner (s.pc i) ≡ true
      → shares q ≡ 0
      → is_owner q ≡ true
      → is_queued q ≡ false
      → (is_lone q ≡ true → s.counter ≡ 0)
      → (q ≡ draining false → 0 < s.counter)
      → Inv n (record s { pc = update s.pc i q })
  drain-Inv q es eq own fs fo fq alone empty = record {
    core = record {
      counts = core.counts ∙ total-ext (sharing s.pc) _ n (λ j p. ground arith);
      owned = λ e. (i, here, ground arith);
      owners = λ j p o. core.owners i here own;
      one = λ j k p r o t. core.one j k p r (ground arith) (ground arith);
      alone = λ j p l. ground (arith, alone, core.alone j p);
      offered = λ j e. ground (arith, core.offered j e);
      listed = λ j p r. ground (arith, core.listed j p);
    };
    sleepers = record {
      waits = λ j k p e. core.owners i here own;
      drains = λ j p e. ground (arith, sleepers.drains j p, empty);
    };
  }

  -- An exclusive task runs beside no shared one.
  pub lone_shares : (j : ℕ) → j < n → is_lone (s.pc i) ≡ true → shares (s.pc j) ≡ 0
  lone_shares j p l = omega (arith, core.counts, core.alone i here l, le-total (sharing s.pc) n j p)

  -- Thread `i` offers its task.
  pub offer-Inv :
      (q : Pc)
      → shares q ≡ shares (s.pc i)
      → is_owner q ≡ is_owner (s.pc i)
      → is_lone q ≡ is_lone (s.pc i)
      → is_queued q ≡ true
      → (shares (s.pc i) ≡ 1) ⊎ (is_owner (s.pc i) ≡ true)
      → Inv n (record s { external_task = some i; pc = update s.pc i q })
  offer-Inv q es eo el eq active = record {
    core = record {
      counts = core.counts ∙ total-ext (sharing s.pc) _ n (λ j p. ground arith);
      owned = λ e. let (j, p, o) = core.owned e in (j, p, ground arith);
      owners = λ j p o. core.owners j p (ground arith);
      one = λ j k p r o t. core.one j k p r (ground arith) (ground arith);
      alone = λ j p l. core.alone j p (ground arith);
      offered = λ j e. ground (arith, here);
      listed = λ j p r. by_place j p r;
    };
    sleepers = record {
      waits = λ j k p e. ground (arith, sleepers.waits j k p);
      drains = λ j p e. ground (arith, sleepers.drains j p);
    };
  }
    where
      by_place : (j : ℕ) → j < n → update s.pc i q j ≡ queued exclusive → some i ≡ some j
      by_place j p r = elim active [
        | inl one ↦
            ground (arith, core.counts, core.alone j p, le-total (sharing s.pc) n i here, one)
        | inr own ↦ ground (arith, core.one i j here p own)
      ]

  pub take-Inv :
      (k : Kind)
      → s.external_task ≡ some i
      → s.pc i ≡ queued k
      → Inv n (record s { external_task = none; pc = update s.pc i (taken k) })
  take-Inv k e at = record {
    core = record {
      counts = core.counts ∙ total-ext (sharing s.pc) _ n (λ j p. by_kind_shares j);
      owned = λ e. let (j, p, o) = core.owned e in (j, p, by_kind_owner j ∙ o);
      owners = λ j p o. core.owners j p (sym (by_kind_owner j) ∙ o);
      one = λ j k p r o t. core.one j k p r (sym (by_kind_owner j) ∙ o) (sym (by_kind_owner k) ∙ t);
      alone = λ j p l. core.alone j p (sym (by_kind_lone j) ∙ l);
      offered = λ j e. ground arith;
      listed = λ j p r. ground (arith, core.listed j p);
    };
    sleepers = record {
      waits = λ j k p e. ground (arith, sleepers.waits j k p);
      drains = λ j p e. ground (arith, sleepers.drains j p);
    };
  }
    where
      same_kind :
          (k : Kind)
          → (shares (queued k) ≡ shares (taken k))
            × (is_owner (taken k) ≡ is_owner (queued k))
            × (is_lone (taken k) ≡ is_lone (queued k))
      same_kind shared = (refl, refl, refl)
      same_kind exclusive = (refl, refl, refl)

      by_kind_shares : (j : ℕ) → sharing s.pc j ≡ sharing (update s.pc i (taken k)) j
      by_kind_shares j = ground (arith, same_kind k)

      by_kind_owner : (j : ℕ) → is_owner (update s.pc i (taken k) j) ≡ is_owner (s.pc j)
      by_kind_owner j = ground (arith, same_kind k)

      by_kind_lone : (j : ℕ) → is_lone (update s.pc i (taken k) j) ≡ is_lone (s.pc j)
      by_kind_lone j = ground (arith, same_kind k)

  -- The task of thread `i` is done: a shared one is counted out, the last one wakes whoever waits.
  pub release_shared-Core :
      s.pc i ≡ finished shared
      → Core n (record s { counter = s.counter - 1; pc = update s.pc i idle })
  release_shared-Core at = record {
    counts = ground (
      arith,
      core.counts,
      total-change (sharing s.pc) (sharing (update s.pc i idle)) n i here (λ j ne. ground arith),
    );
    owned = λ e. let (j, p, o) = core.owned e in (j, p, ground arith);
    owners = λ j p o. core.owners j p (ground arith);
    one = λ j k p r o t. core.one j k p r (ground arith) (ground arith);
    alone = λ j p l. ground (arith, core.alone j p);
    offered = λ j e. ground (arith, core.offered j e);
    listed = λ j p r. core.listed j p (ground arith);
  }

  pub release_shared-Sleepers :
      s.pc i ≡ finished shared
      → (s.is_exclusive && (s.counter - 1 == 0)) ≡ false
      → Sleepers n (record s { counter = s.counter - 1; pc = update s.pc i idle })
  release_shared-Sleepers at busy = record {
    waits = λ j k p e. ground (arith, sleepers.waits j k p);
    drains = λ j p e. ground (arith, sleepers.drains j p, core.owners j p);
  }

  pub release_exclusive-Core :
      s.pc i ≡ finished exclusive
      → Core n (record s { is_exclusive = false; pc = update s.pc i idle })
  release_exclusive-Core at = record {
    counts = core.counts ∙ total-ext (sharing s.pc) _ n (λ j p. ground arith);
    owned = λ e. ground arith;
    owners = λ j p o. ground (arith, core.one i j here p);
    one = λ j k p r o t. core.one j k p r (ground arith) (ground arith);
    alone = λ j p l. core.alone j p (ground arith);
    offered = λ j e. ground (arith, core.offered j e);
    listed = λ j p r. core.listed j p (ground arith);
  }
