-- ===== src/Deque/Params/Arities.antt =====
-- src/lace.h, the macros for each number of parameters, with and without a result.
use lace.Prelude.{[], ◌∷◌}
use lace.Deque.Params.{TaskMacros, declare, VoidMacros, declare_void}

-- `TASK_0`
unfoldable pub task_0 : {R : Type 0} → (work : R) → TaskMacros [] R
unfolding declare
task_0 work = declare [] work

-- `VOID_TASK_0`
unfoldable pub void_task_0 : VoidMacros []
unfolding declare_void
void_task_0 = declare_void []

-- `TASK_1`
unfoldable pub task_1 : {A R : Type 0} → (work : A → R) → TaskMacros (A ∷ []) R
unfolding declare
task_1 work = declare (_ ∷ []) work

-- `VOID_TASK_1`
unfoldable pub void_task_1 : {A : Type 0} → VoidMacros (A ∷ [])
unfolding declare_void
void_task_1 = declare_void (_ ∷ [])

-- `TASK_2`
unfoldable pub task_2 : {A B R : Type 0} → (work : A → B → R) → TaskMacros (A ∷ B ∷ []) R
unfolding declare
task_2 work = declare (_ ∷ _ ∷ []) work

-- `VOID_TASK_2`
unfoldable pub void_task_2 : {A B : Type 0} → VoidMacros (A ∷ B ∷ [])
unfolding declare_void
void_task_2 = declare_void (_ ∷ _ ∷ [])

-- `TASK_3`
unfoldable pub task_3 : {A B C R : Type 0} → (work : A → B → C → R) → TaskMacros (A ∷ B ∷ C ∷ []) R
unfolding declare
task_3 work = declare (_ ∷ _ ∷ _ ∷ []) work

-- `VOID_TASK_3`
unfoldable pub void_task_3 : {A B C : Type 0} → VoidMacros (A ∷ B ∷ C ∷ [])
unfolding declare_void
void_task_3 = declare_void (_ ∷ _ ∷ _ ∷ [])

-- `TASK_4`
unfoldable pub task_4 :
    {A B C D R : Type 0} → (work : A → B → C → D → R) → TaskMacros (A ∷ B ∷ C ∷ D ∷ []) R
unfolding declare
task_4 work = declare (_ ∷ _ ∷ _ ∷ _ ∷ []) work

-- `VOID_TASK_4`
unfoldable pub void_task_4 : {A B C D : Type 0} → VoidMacros (A ∷ B ∷ C ∷ D ∷ [])
unfolding declare_void
void_task_4 = declare_void (_ ∷ _ ∷ _ ∷ _ ∷ [])

-- `TASK_5`
unfoldable pub task_5 :
    {A B C D E R : Type 0} → (work : A → B → C → D → E → R) → TaskMacros (A ∷ B ∷ C ∷ D ∷ E ∷ []) R
unfolding declare
task_5 work = declare (_ ∷ _ ∷ _ ∷ _ ∷ _ ∷ []) work

-- `VOID_TASK_5`
unfoldable pub void_task_5 : {A B C D E : Type 0} → VoidMacros (A ∷ B ∷ C ∷ D ∷ E ∷ [])
unfolding declare_void
void_task_5 = declare_void (_ ∷ _ ∷ _ ∷ _ ∷ _ ∷ [])

-- `TASK_6`
unfoldable pub task_6 :
    {A B C D E F R : Type 0}
    → (work : A → B → C → D → E → F → R) → TaskMacros (A ∷ B ∷ C ∷ D ∷ E ∷ F ∷ []) R
unfolding declare
task_6 work = declare (_ ∷ _ ∷ _ ∷ _ ∷ _ ∷ _ ∷ []) work

-- `VOID_TASK_6`
unfoldable pub void_task_6 : {A B C D E F : Type 0} → VoidMacros (A ∷ B ∷ C ∷ D ∷ E ∷ F ∷ [])
unfolding declare_void
void_task_6 = declare_void (_ ∷ _ ∷ _ ∷ _ ∷ _ ∷ _ ∷ [])
