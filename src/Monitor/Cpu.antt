-- ===== src/Monitor/Cpu.antt =====
-- The CPU time of monitor.py on a machine with cgroup v2.
use Prim.Native.String.{◌++◌}
use text.Mathlib.TextLemmas.{cons-append}
use gleanflow.Prelude.{String, ◌≡◌, refl, none, some, ◌==◌, ◌||◌, Bool-cases, inl, inr}
use gleanflow.Decimal.{int, all_digits_in, is_digit}
use gleanflow.Monitor.{
  Machine, is_blank, word, first_word, number_word, read_int, or_process, or_cpuacct, when_number,
  cpu_usec,
}

no_number : (s : String) → number_word (word (String.◌∷◌ "u" s)) ≡ none
unfolding number_word word is_blank int all_digits_in is_digit
no_number s =
    elim (Bool-cases (String.◌∷◌ "u" (word s) == "max" || String.◌∷◌ "u" (word s) == "")) [
      | inl known ↦ rw known refl
      | inr other ↦ rw other refl
    ]

-- The usage in the `cpu.stat` of cgroup v2, whose text begins with `usage_usec`, is never reported: the
-- file is first read as a number, which fails, so that the time is that of cgroup v1 or of the process.
pub cpu_usec-ignores_stat :
    (m : Machine) (rest : String)
    → m.file "/sys/fs/cgroup/cpu.stat" ≡ some ("usage_usec " ++ rest)
    → cpu_usec m ≡ or_process m (read_int m "/sys/fs/cgroup/cpuacct/cpuacct.usage")
unfolding cpu_usec read_int first_word when_number or_cpuacct is_blank
cpu_usec-ignores_stat m rest e =
    let text = cons-append "u" "sage_usec " rest in rw (e, text, no_number) refl
