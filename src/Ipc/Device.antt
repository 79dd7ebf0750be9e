-- ===== src/Ipc/Device.antt =====
-- src/vmp/vmp_shared.c and src/ipcs/ipc_shared.c: opening and closing the segment and its semaphore.
use vmp_rl.Base.{
  ℕ, Bool, true, false, Run, done, fault, ℤ, minus_one, if◌then◌else◌, ◌≡◌, refl, arith, ◌⊎◌, inl,
  inr,
}
use vmp_rl.Ipc.Segment.{ShmData, ShmBuf, null, failed, mapped, zeroed}

-- The answers of the operating system and of the vpk library, which are not part of the program.
pub record Sysv : Type 0 where
  pub exists : Bool  -- vpk_exists
  pub create_file : ℤ  -- vpk_create_file
  pub ftok : ℕ → ℤ
  pub semget : ℤ → ℤ  -- vpk_semget
  pub setall : ℤ → ℤ  -- vpk_semctl with SETALL
  pub shmget : ℤ → ℕ → ℤ  -- vpk_shmget
  pub shmat : ℤ → ShmBuf  -- vpk_shmat
  pub shmdt : ℤ  -- vpk_shmdt
  pub rmid : ℤ → ℤ  -- vpk_shmctl with IPC_RMID

-- `vmp_shmdev_t`
pub record ShmDev : Type 0 where
  pub semid : ℤ
  pub shmid : ℤ
  pub size : ℕ
  pub shmbuf : ShmBuf

abbrev pub is_neg : ℤ → Bool
is_neg (ℤ.pos n) = false
is_neg (ℤ.negsuc n) = true

abbrev ipc_devshm_projid : ℕ
ipc_devshm_projid = 0x10

abbrev ipc_devsem_projid : ℕ
ipc_devsem_projid = 0x11

-- `sizeof(ipc_shmdata_t)`: the 64 bytes of the union, and the count.
abbrev shmdata_size : ℕ
shmdata_size = 68

pub vmp_filepath_check : Sysv → ℤ
vmp_filepath_check os =
    if os.exists then ℤ.pos 0 else if is_neg os.create_file then minus_one else ℤ.pos 0

-- The answer of `vmp_filepath_check` is not looked at.
unfoldable pub ipc_sem_open : Sysv → (path_given : Bool) → (init : Bool) → ℤ
ipc_sem_open os false init = minus_one
ipc_sem_open os true init =
    let key = os.ftok ipc_devsem_projid in
    let semid = os.semget key in
    if is_neg key
    then minus_one
    else if is_neg semid
    then minus_one
    else if init
    then if is_neg (os.setall semid) then minus_one else semid
    else semid

pub attach : ShmDev → ShmBuf → ShmDev × ℤ
attach dev failed = (record dev { shmbuf = failed }, minus_one)
attach dev null = (record dev { shmbuf = null }, ℤ.pos 0)
attach dev mapped = (record dev { shmbuf = mapped }, ℤ.pos 0)

unfoldable pub ipc_shm_open : Sysv → ShmDev → ShmDev × ℤ
unfolding attach
ipc_shm_open os dev =
    let key = os.ftok ipc_devshm_projid in
    let shmid = os.shmget key dev.size in
    if is_neg key
    then (dev, minus_one)
    else if is_neg shmid
    then (dev, minus_one)
    else attach (record dev { shmid = shmid }) (os.shmat shmid)

pub ipc_shm_close : Sysv → ShmDev → (destroy : Bool) → ℤ
ipc_shm_close os dev destroy =
    if is_neg os.shmdt then minus_one else if destroy then os.rmid dev.shmid else ℤ.pos 0

pub clear : ShmDev → ShmData → ShmBuf → Run (ShmDev × ShmData × ℤ)
clear dev d null = done (dev, d, minus_one)
clear dev d failed = fault
clear dev d mapped = done (dev, zeroed, ℤ.pos 0)

-- The daemon's side: the semaphore is set to 1 and the segment cleared.
unfoldable pub ipc_shared_init : Sysv → ShmDev → ShmData → Run (ShmDev × ShmData × ℤ)
unfolding ipc_sem_open ipc_shm_open clear
ipc_shared_init os dev d =
    let r =
      ipc_shm_open os (record dev { semid = ipc_sem_open os true true; size = shmdata_size }) in
    if is_neg r.1 then done (r.0, d, minus_one) else clear r.0 d r.0.shmbuf

-- The child's side: neither is touched.
unfoldable pub ipc_share_init : Sysv → ShmDev → ShmDev × ℤ
unfolding ipc_sem_open ipc_shm_open
ipc_share_init os dev =
    ipc_shm_open os (record dev { semid = ipc_sem_open os true false; size = shmdata_size })

-- A failure to remove the semaphore is only logged.
pub ipc_sem_close : (semctl : ℤ) → ℤ
ipc_sem_close semctl = ℤ.pos 0

-- `semctl` is the answer to the removal of the semaphore, which comes first.
pub ipc_shared_done : Sysv → (semctl : ℤ) → ShmDev → ℤ
unfolding ipc_shm_close ipc_sem_close
ipc_shared_done os semctl dev = let closed = ipc_sem_close semctl in ipc_shm_close os dev true

-- What the buffer of a fresh device may be after `ipc_shm_open`, by the sign of the answer.
abbrev Opened : ShmDev × ℤ → Type 0
Opened r =
    (is_neg r.1 ≡ true) × ((r.0.shmbuf ≡ null) ⊎ (r.0.shmbuf ≡ failed))
    ⊎ (is_neg r.1 ≡ false) × ((r.0.shmbuf ≡ null) ⊎ (r.0.shmbuf ≡ mapped))

attach-Opened : (dev : ShmDev) (b : ShmBuf) → Opened (attach dev b)
unfolding attach
attach-Opened dev null = inr (refl, inl refl)
attach-Opened dev failed = inl (refl, inr refl)
attach-Opened dev mapped = inr (refl, inr refl)

shm_open-Opened : (os : Sysv) (dev : ShmDev) → dev.shmbuf ≡ null → Opened (ipc_shm_open os dev)
unfolding ipc_shm_open
shm_open-Opened os dev e =
    let key = os.ftok ipc_devshm_projid in
    let shmid = os.shmget key dev.size in
    ground (arith, attach-Opened (record dev { shmid = shmid }) (os.shmat shmid))

clear_lem :
    (r : ShmDev × ℤ) (d : ShmData)
    → Opened r
    → (let out = if is_neg r.1 then done (r.0, d, minus_one) else clear r.0 d r.0.shmbuf in
        ((out ≡ done (r.0, zeroed, ℤ.pos 0)) × (r.0.shmbuf ≡ mapped))
        ⊎ ((out ≡ done (r.0, d, minus_one)) × ((r.0.shmbuf ≡ null) ⊎ (r.0.shmbuf ≡ failed))))
unfolding clear
clear_lem r d o = ground arith

-- On a fresh device `ipc_shared_init` never faults. It answers 0, with the segment mapped and
-- cleared, or -1, with the shared data as it was and the buffer null or `(void *)-1`.
pub ipc_shared_init_lem :
    (os : Sysv) (dev : ShmDev) (d : ShmData)
    → dev.shmbuf ≡ null
    → (dev' : ShmDev) × (((ipc_shared_init os dev d ≡ done (dev', zeroed, ℤ.pos 0))
          × (dev'.shmbuf ≡ mapped))
        ⊎ ((ipc_shared_init os dev d ≡ done (dev', d, minus_one))
            × ((dev'.shmbuf ≡ null) ⊎ (dev'.shmbuf ≡ failed))))
unfolding ipc_shared_init
ipc_shared_init_lem os dev d e =
    let opened = record dev { semid = ipc_sem_open os true true; size = shmdata_size } in
    let r = ipc_shm_open os opened in (r.0, clear_lem r d (shm_open-Opened os opened e))

-- Whatever becomes of the semaphore, `ipc_shared_init` gives the same answer: only the stored
-- number of the semaphore differs, also when it could not be opened.
pub ipc_shared_init_ignores_sem :
    (os : Sysv) (semget setall : ℤ → ℤ) (dev dev' : ShmDev) (d d' : ShmData) (r : ℤ)
    → ipc_shared_init os dev d ≡ done (dev', d', r)
    → (let os' = record os { semget = semget; setall = setall } in
        ipc_shared_init os' dev d
        ≡ done (record dev' { semid = ipc_sem_open os' true true }, d', r))
unfolding ipc_shared_init
ipc_shared_init_ignores_sem os semget setall dev dev' d d' r e = ground arith
