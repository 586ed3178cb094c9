-- ===== src/Deque/Owner.antt =====
-- src/lace.h, the owner's side: `NAME_SPAWN`, `NAME_SYNC`, `NAME_SYNC_SLOW`, `lace_drop`,
-- `lace_drop_slow`, `lace_shrink_shared`, `lace_leapfrog`, one access to shared memory at a time.
use lace.Prelude.{
  ℕ, suc, ◌+◌, ◌-◌, ◌/◌, Bool, true, false, not, ◌&&◌, ltb, leb, ◌==◌, if◌then◌else◌, List, [], ◌∷◌,
  u32, u64, sub64, update, bump,
}
use lace.Deque.State.{
  Thief, OwnerPc, ready, overflow, spawning, unasking, growing, regrowing, reopening, reopened,
  grown, popping, slow, shrinking, shrunk, mending, all_gone, regrow, regrown, taking, leaping,
  spinning, landed, clearing, Command, spawn, sync_next, drop_next, land, share, Pop, sync, drop,
  System,
}

unfoldable pub goto : OwnerPc → System → System
goto p s = record s { at = p }

-- Tasks below this index belong to callers that wait in `lace_leapfrog`.
abbrev pub base : List ℕ → ℕ
base [] = 0
base (h ∷ _) = suc h

unfoldable pub is_completed : Thief → Bool
is_completed Thief.completed = true
is_completed _ = false

-- `NAME_SPAWN` up to the fence: the task is written at the head.
unfoldable pub spawn_task : System → System
unfolding goto
spawn_task s = if s.head == s.w.end then goto overflow s else record s {
  f = update s.f s.head s.spawned;
  thief = update s.thief s.head Thief.task;
  at = spawning;
}

-- `SYNC` and `DROP` first decrease the head. By contract they match an earlier `SPAWN`.
unfoldable pub pop_task : Pop → System → System
pop_task k s =
    if ltb (base s.pins) s.head then record s { head = s.head - 1; at = popping k } else s

-- The loop of `lace_leapfrog` reads the thief of the task that it waits for.
unfoldable pub land_on : List ℕ → System → System
unfolding is_completed
land_on [] s = s
land_on (h ∷ r) s =
    if s.head == suc h && is_completed (s.thief h)
    then record s { head = h; pins = r; at = landed }
    else s

-- `lace_make_all_shared`
unfoldable pub share_all : System → System
share_all s = if s.w.split == s.head then s else record s {
  w = record (s.w) { split = s.head };
  wt = record (s.wt) { ts = record (s.wt.ts) { split = u32 s.head } };
}

unfoldable pub command : Command → System → System
unfolding spawn_task pop_task land_on share_all
command spawn s = spawn_task s
command sync_next s = pop_task sync s
command drop_next s = pop_task drop s
command land s = land_on s.pins s
command share s = share_all s

-- `NAME_SPAWN` after the fence reads `movesplit`.
unfoldable pub spawn_publish : System → System
unfolding goto
spawn_publish s =
    if s.w.allstolen
    then (if s.wt.movesplit then goto unasking s else goto reopening s)
    else if s.wt.movesplit
    then goto growing s
    else record s { spawned = s.spawned + 1; head = s.head + 1; at = ready }

-- `lace_drop` returns: the slot is left as it is.
unfoldable pub discard : System → System
discard s = record s { dropped = update s.dropped (s.f s.head) true; at = ready }

-- What follows when the task at the head is not shared: `DROP` returns, `SYNC_SLOW` goes on.
unfoldable pub settle : Pop → System → System
unfolding goto discard
settle sync s = goto regrow s
settle drop s = discard s

unfoldable pub pop_fast : Pop → System → System
unfolding goto discard
pop_fast sync s = goto taking s
pop_fast drop s = discard s

-- `lace_shrink_shared` reads `ts.v`.
unfoldable pub shrink_load : Pop → System → System
unfolding goto
shrink_load k s =
    if s.wt.ts.tail == s.wt.ts.split then goto all_gone s else goto (shrinking k s.wt.ts) s

-- The second read of the tail, after the fence.
unfoldable pub shrink_check : Pop → ℕ → ℕ → System → System
unfolding goto settle
shrink_check k newsplit split s =
    if s.wt.ts.tail == split
    then goto all_gone s
    else if ltb newsplit s.wt.ts.tail
    then goto (mending k (u32 (s.wt.ts.tail + split) / 2)) s
    else settle k (record s { w = record (s.w) { split = newsplit } })

-- `SYNC_SLOW` reads whether thieves asked for a higher split point.
unfoldable pub sync_regrow : System → System
unfolding goto
sync_regrow s = if s.wt.movesplit then goto regrowing s else goto taking s

-- `lace_leapfrog` reads the thief: done, still to be stored, or a worker to leap to.
unfoldable pub leap_with : OwnerPc → Thief → System → System
unfolding goto
leap_with done Thief.completed s = goto done s
leap_with done (Thief.worker _) s = record s {
  pins = s.head ∷ s.pins;
  head = s.head + 1;
  at = ready;
}
leap_with done _ s = goto spinning s

unfoldable pub owner_at : Command → OwnerPc → System → System
unfolding goto command spawn_publish settle pop_fast shrink_load shrink_check sync_regrow leap_with
owner_at c ready s = command c s
owner_at c overflow s = s
owner_at c spawning s = spawn_publish s
owner_at c unasking s = record s { wt = record (s.wt) { movesplit = false }; at = reopening }
owner_at c reopening s = record s {
  wt = record (s.wt) { ts = record { tail = u32 s.head; split = u32 (s.head + 1) } };
  spawned = s.spawned + 1;
  at = reopened;
}
owner_at c reopened s = record s {
  wt = record (s.wt) { allstolen = false };
  w = record (s.w) { split = s.head + 1; allstolen = false };
  head = s.head + 1;
  at = ready;
}
owner_at c growing s =
    let newsplit = u32 (s.w.split + s.head + 2) / 2 in
    record s {
      wt = record (s.wt) { ts = record (s.wt.ts) { split = newsplit } };
      w = record (s.w) { split = newsplit };
      spawned = s.spawned + 1;
      at = grown;
    }
owner_at c grown s = record s {
  wt = record (s.wt) { movesplit = false };
  head = s.head + 1;
  at = ready;
}
owner_at c (popping k) s =
    if not s.wt.movesplit && leb s.w.split s.head then pop_fast k s else goto (slow k) s
owner_at c (slow k) s =
    if s.w.allstolen
    then goto leaping s
    else if ltb s.head s.w.split
    then shrink_load k s
    else settle k s
owner_at c (shrinking k ts) s =
    let newsplit = u32 (ts.tail + ts.split) / 2 in
    record s {
      wt = record (s.wt) { ts = record (s.wt.ts) { split = newsplit } };
      at = shrunk k newsplit ts.split;
    }
owner_at c (shrunk k newsplit split) s = shrink_check k newsplit split s
owner_at c (mending k newsplit) s = settle k (record s {
  wt = record (s.wt) { ts = record (s.wt.ts) { split = newsplit } };
  w = record (s.w) { split = newsplit };
})
owner_at c all_gone s = record s {
  wt = record (s.wt) { allstolen = true };
  w = record (s.w) { allstolen = true };
  at = leaping;
}
owner_at c regrow s = sync_regrow s
owner_at c regrowing s =
    let diff = u64 (sub64 s.head s.w.split + 1) / 2 in
    record s {
      w = record (s.w) { split = s.w.split + diff };
      wt = record (s.wt) { ts = record (s.wt.ts) { split = u32 (s.wt.ts.split + diff) } };
      at = regrown;
    }
owner_at c regrown s = record s { wt = record (s.wt) { movesplit = false }; at = taking }
owner_at c taking s = record s {
  thief = update s.thief s.head Thief.empty;
  runs = bump s.runs (s.f s.head);
  at = ready;
}
owner_at c leaping s = leap_with clearing (s.thief s.head) s
owner_at c spinning s = leap_with landed (s.thief s.head) s
owner_at c landed s = if s.w.allstolen then goto clearing s else record s {
  wt = record (s.wt) { allstolen = true };
  w = record (s.w) { allstolen = true };
  at = clearing;
}
owner_at c clearing s = record s { thief = update s.thief s.head Thief.empty; at = ready }

unfoldable pub own : Command → System → System
unfolding owner_at
own c s = owner_at c s.at s
