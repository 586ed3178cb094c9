-- ===== src/Deque/Params/Wide.antt =====
-- src/lace14.h, generated by src/lace.sh: src/lace.h with the same macros for tasks of seven to
-- fourteen parameters.
use lace.Prelude.{[], ◌∷◌}
use lace.Deque.Params.{TaskMacros, declare, VoidMacros, declare_void}

-- `TASK_7`
unfoldable pub task_7 :
    {A B C D E F G Result : Type 0}
    → (work : A → B → C → D → E → F → G → Result)
    → TaskMacros (A ∷ B ∷ C ∷ D ∷ E ∷ F ∷ G ∷ []) Result
unfolding declare
task_7 work = declare (_ ∷ _ ∷ _ ∷ _ ∷ _ ∷ _ ∷ _ ∷ []) work

-- `VOID_TASK_7`
unfoldable pub void_task_7 : {A B C D E F G : Type 0} → VoidMacros (A ∷ B ∷ C ∷ D ∷ E ∷ F ∷ G ∷ [])
unfolding declare_void
void_task_7 = declare_void (_ ∷ _ ∷ _ ∷ _ ∷ _ ∷ _ ∷ _ ∷ [])

-- `TASK_8`
unfoldable pub task_8 :
    {A B C D E F G H Result : Type 0}
    → (work : A → B → C → D → E → F → G → H → Result)
    → TaskMacros (A ∷ B ∷ C ∷ D ∷ E ∷ F ∷ G ∷ H ∷ []) Result
unfolding declare
task_8 work = declare (_ ∷ _ ∷ _ ∷ _ ∷ _ ∷ _ ∷ _ ∷ _ ∷ []) work

-- `VOID_TASK_8`
unfoldable pub void_task_8 :
    {A B C D E F G H : Type 0} → VoidMacros (A ∷ B ∷ C ∷ D ∷ E ∷ F ∷ G ∷ H ∷ [])
unfolding declare_void
void_task_8 = declare_void (_ ∷ _ ∷ _ ∷ _ ∷ _ ∷ _ ∷ _ ∷ _ ∷ [])

-- `TASK_9`
unfoldable pub task_9 :
    {A B C D E F G H I Result : Type 0}
    → (work : A → B → C → D → E → F → G → H → I → Result)
    → TaskMacros (A ∷ B ∷ C ∷ D ∷ E ∷ F ∷ G ∷ H ∷ I ∷ []) Result
unfolding declare
task_9 work = declare (_ ∷ _ ∷ _ ∷ _ ∷ _ ∷ _ ∷ _ ∷ _ ∷ _ ∷ []) work

-- `VOID_TASK_9`
unfoldable pub void_task_9 :
    {A B C D E F G H I : Type 0} → VoidMacros (A ∷ B ∷ C ∷ D ∷ E ∷ F ∷ G ∷ H ∷ I ∷ [])
unfolding declare_void
void_task_9 = declare_void (_ ∷ _ ∷ _ ∷ _ ∷ _ ∷ _ ∷ _ ∷ _ ∷ _ ∷ [])

-- `TASK_10`
unfoldable pub task_10 :
    {A B C D E F G H I J Result : Type 0}
    → (work : A → B → C → D → E → F → G → H → I → J → Result)
    → TaskMacros (A ∷ B ∷ C ∷ D ∷ E ∷ F ∷ G ∷ H ∷ I ∷ J ∷ []) Result
unfolding declare
task_10 work = declare (_ ∷ _ ∷ _ ∷ _ ∷ _ ∷ _ ∷ _ ∷ _ ∷ _ ∷ _ ∷ []) work

-- `VOID_TASK_10`
unfoldable pub void_task_10 :
    {A B C D E F G H I J : Type 0} → VoidMacros (A ∷ B ∷ C ∷ D ∷ E ∷ F ∷ G ∷ H ∷ I ∷ J ∷ [])
unfolding declare_void
void_task_10 = declare_void (_ ∷ _ ∷ _ ∷ _ ∷ _ ∷ _ ∷ _ ∷ _ ∷ _ ∷ _ ∷ [])

-- `TASK_11`
unfoldable pub task_11 :
    {A B C D E F G H I J K Result : Type 0}
    → (work : A → B → C → D → E → F → G → H → I → J → K → Result)
    → TaskMacros (A ∷ B ∷ C ∷ D ∷ E ∷ F ∷ G ∷ H ∷ I ∷ J ∷ K ∷ []) Result
unfolding declare
task_11 work = declare (_ ∷ _ ∷ _ ∷ _ ∷ _ ∷ _ ∷ _ ∷ _ ∷ _ ∷ _ ∷ _ ∷ []) work

-- `VOID_TASK_11`
unfoldable pub void_task_11 :
    {A B C D E F G H I J K : Type 0} → VoidMacros (A ∷ B ∷ C ∷ D ∷ E ∷ F ∷ G ∷ H ∷ I ∷ J ∷ K ∷ [])
unfolding declare_void
void_task_11 = declare_void (_ ∷ _ ∷ _ ∷ _ ∷ _ ∷ _ ∷ _ ∷ _ ∷ _ ∷ _ ∷ _ ∷ [])

-- `TASK_12`
unfoldable pub task_12 :
    {A B C D E F G H I J K L Result : Type 0}
    → (work : A → B → C → D → E → F → G → H → I → J → K → L → Result)
    → TaskMacros (A ∷ B ∷ C ∷ D ∷ E ∷ F ∷ G ∷ H ∷ I ∷ J ∷ K ∷ L ∷ []) Result
unfolding declare
task_12 work = declare (_ ∷ _ ∷ _ ∷ _ ∷ _ ∷ _ ∷ _ ∷ _ ∷ _ ∷ _ ∷ _ ∷ _ ∷ []) work

-- `VOID_TASK_12`
unfoldable pub void_task_12 :
    {A B C D E F G H I J K L : Type 0}
    → VoidMacros (A ∷ B ∷ C ∷ D ∷ E ∷ F ∷ G ∷ H ∷ I ∷ J ∷ K ∷ L ∷ [])
unfolding declare_void
void_task_12 = declare_void (_ ∷ _ ∷ _ ∷ _ ∷ _ ∷ _ ∷ _ ∷ _ ∷ _ ∷ _ ∷ _ ∷ _ ∷ [])

-- `TASK_13`
unfoldable pub task_13 :
    {A B C D E F G H I J K L M Result : Type 0}
    → (work : A → B → C → D → E → F → G → H → I → J → K → L → M → Result)
    → TaskMacros (A ∷ B ∷ C ∷ D ∷ E ∷ F ∷ G ∷ H ∷ I ∷ J ∷ K ∷ L ∷ M ∷ []) Result
unfolding declare
task_13 work = declare (_ ∷ _ ∷ _ ∷ _ ∷ _ ∷ _ ∷ _ ∷ _ ∷ _ ∷ _ ∷ _ ∷ _ ∷ _ ∷ []) work

-- `VOID_TASK_13`
unfoldable pub void_task_13 :
    {A B C D E F G H I J K L M : Type 0}
    → VoidMacros (A ∷ B ∷ C ∷ D ∷ E ∷ F ∷ G ∷ H ∷ I ∷ J ∷ K ∷ L ∷ M ∷ [])
unfolding declare_void
void_task_13 = declare_void (_ ∷ _ ∷ _ ∷ _ ∷ _ ∷ _ ∷ _ ∷ _ ∷ _ ∷ _ ∷ _ ∷ _ ∷ _ ∷ [])

-- `TASK_14`
unfoldable pub task_14 :
    {A B C D E F G H I J K L M N Result : Type 0}
    → (work : A → B → C → D → E → F → G → H → I → J → K → L → M → N → Result)
    → TaskMacros (A ∷ B ∷ C ∷ D ∷ E ∷ F ∷ G ∷ H ∷ I ∷ J ∷ K ∷ L ∷ M ∷ N ∷ []) Result
unfolding declare
task_14 work = declare (_ ∷ _ ∷ _ ∷ _ ∷ _ ∷ _ ∷ _ ∷ _ ∷ _ ∷ _ ∷ _ ∷ _ ∷ _ ∷ _ ∷ []) work

-- `VOID_TASK_14`
unfoldable pub void_task_14 :
    {A B C D E F G H I J K L M N : Type 0}
    → VoidMacros (A ∷ B ∷ C ∷ D ∷ E ∷ F ∷ G ∷ H ∷ I ∷ J ∷ K ∷ L ∷ M ∷ N ∷ [])
unfolding declare_void
void_task_14 = declare_void (_ ∷ _ ∷ _ ∷ _ ∷ _ ∷ _ ∷ _ ∷ _ ∷ _ ∷ _ ∷ _ ∷ _ ∷ _ ∷ _ ∷ [])
