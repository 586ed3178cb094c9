-- ===== src/Deque/Steal.antt =====
-- src/lace.h, `lace_steal`, one access to shared memory at a time.
use lace.Prelude.{ℕ, ◌+◌, Bool, true, ◌&&◌, ltb, ◌==◌, if◌then◌else◌, u32, update, bump}
use lace.Deque.State.{
  Thief, TailSplit, ThiefPc, rest, looked, loaded, won, marked, running, asking, requesting,
  StealResult, System,
}

unfoldable pub goto : ℕ → ThiefPc → System → System
goto k p s = record s { pc = update s.pc k p }

-- The 64-bit words are equal.
unfoldable pub same : TailSplit → TailSplit → Bool
same a b = a.tail == b.tail && a.split == b.split

-- The next access of call `k`. A weak compare-exchange may fail for no reason: `luck` decides.
unfoldable pub steal_at : Bool → ℕ → ThiefPc → System → System
unfolding goto same
steal_at luck k (rest _) s =
    if s.wt.allstolen then goto k (rest StealResult.nowork) s else goto k looked s
steal_at luck k looked s =
    if ltb s.wt.ts.tail s.wt.ts.split then goto k (loaded s.wt.ts) s else goto k asking s
steal_at luck k (loaded ts) s =
    if luck && same s.wt.ts ts
    then record s {
      wt = record (s.wt) { ts = record ts { tail = u32 (ts.tail + 1) } };
      pc = update s.pc k (won ts.tail);
    }
    else goto k (rest StealResult.busy) s
steal_at luck k (won i) s = record s {
  thief = update s.thief i (Thief.worker k);
  pc = update s.pc k (marked i);
}
steal_at luck k (marked i) s = record s {
  runs = bump s.runs (s.f i);
  pc = update s.pc k (running i);
}
steal_at luck k (running i) s = record s {
  thief = update s.thief i Thief.completed;
  pc = update s.pc k (rest StealResult.stolen);
}
steal_at luck k asking s =
    if s.wt.movesplit then goto k (rest StealResult.nowork) s else goto k requesting s
steal_at luck k requesting s = record s {
  wt = record (s.wt) { movesplit = true };
  pc = update s.pc k (rest StealResult.nowork);
}

unfoldable pub steal : Bool → ℕ → System → System
unfolding steal_at
steal luck k s = steal_at luck k (s.pc k) s
