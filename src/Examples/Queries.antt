-- ===== src/Examples/Queries.antt =====
-- `gate_shm_get_infos` of the owner of a shared memory.
use sentry_kernel.Base.{◌≡◌, refl, ◌⊎◌, [], ◌∷◌, ret, success}
use sentry_kernel.KTypes.{secure_true, secure_false, ok, invalid}
use sentry_kernel.Task.{index_of, get_from_handle, get_metadata}
use sentry_kernel.Task.Exchange.{put_exchange}
use sentry_kernel.Shm.{ShmUser, tsk_user, ShmInfo, no_access, lookup}
use sentry_kernel.Kernel.{put_sysreturn}
use sentry_kernel.Syscalls.Query.{gate_shm_get_infos}
use sentry_kernel.Syscalls.Query.Infos.{HasRole, told, IsStranger, gate_shm_get_infos_lem}
use sentry_kernel.Examples.{meta_of, first_handle, second_handle, three_tasks}
use sentry_kernel.Examples.Kernels.{rrmq, one_shm, small_kernel, current_is_first}

gate_shm_get_infos_lem_example :
    (IsStranger one_shm 256 first_handle
      × (gate_shm_get_infos rrmq 55 256 small_kernel
          ≡ ret (55, put_sysreturn first_handle invalid small_kernel)))
    ⊎ ((info : ShmInfo) × (role : ShmUser) × (lookup one_shm 256 ≡ success info)
        × HasRole first_handle info role
        × (gate_shm_get_infos rrmq 55 256 small_kernel
            ≡ ret (
              55,
              put_sysreturn first_handle ok (record small_kernel {
                tasks = put_exchange first_handle (told 256 role info) three_tasks;
              }),
            )))
gate_shm_get_infos_lem_example =
    gate_shm_get_infos_lem rrmq 55 256 first_handle (meta_of first_handle 3) small_kernel
      current_is_first (unfold get_metadata get_from_handle index_of in refl)

-- A user that may write, of a memory that nobody may map.
told_bytes :
    told 256 tsk_user (record {
      handle = 256;
      meta = record {
        baseaddr = 4096;
        size = 512;
        is_dma_pool = secure_false;
        is_mappable = secure_false;
        shm_label = 11;
        owner_label = 1;
      };
      is_shared = secure_true;
      owner = record { config = no_access; is_mapped = secure_false; task = first_handle };
      user = record {
        config = record no_access { rw = secure_true; mappable = secure_true };
        is_mapped = secure_false;
        task = second_handle;
      };
    })
    ≡ 0 ∷ 1 ∷ 0 ∷ 0 ∷ 11 ∷ 0 ∷ 0 ∷ 0 ∷ 0 ∷ 16 ∷ 0 ∷ 0 ∷ 0 ∷ 2 ∷ 0 ∷ 0 ∷ 4 ∷ 0 ∷ 0 ∷ 0 ∷ []
told_bytes = refl
