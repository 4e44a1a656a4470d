-- ===== src/Playbook/Header.antt =====
-- The fixed beginning of the playbook, `headerString` of apps/web/app/lib/exportYaml.ts.
use mathlib.Core.List.{[], ◌∷◌}
use Prim.Native.String.{String}
use whiparc.Prelude.Text.{cat}

-- `headerString`
unfoldable pub header : String
unfolding cat
header = cat (
    "---\n" ∷ "# Ansible playbook generated by Whiparc\n"
    ∷ "- name: Automated Infrastructure Provisioning\n" ∷ "  hosts: all\n" ∷ "  become: yes\n"
    ∷ "  tasks:\n" ∷ "\n"
    ∷ "    # Configure dpkg to use unsafe IO for massive speedup in containers\n"
    ∷ "    - name: Configure dpkg unsafe IO\n" ∷ "      ansible.builtin.shell: |\n"
    ∷ "        mkdir -p /etc/dpkg/dpkg.cfg.d\n"
    ∷ "        echo \"force-unsafe-io\" > /etc/dpkg/dpkg.cfg.d/force-unsafe-io\n"
    ∷ "      when: ansible_os_family == 'Debian'\n" ∷ "      ignore_errors: yes\n" ∷ "\n"
    ∷ "    # Clean up any stuck apt/dpkg locks if active\n" ∷ "    - name: Clean up apt locks\n"
    ∷ "      ansible.builtin.shell: |\n"
    ∷ "        killall -9 apt apt-get dpkg 2>/dev/null || true\n"
    ∷ "        rm -f /var/lib/dpkg/lock-frontend\n" ∷ "        rm -f /var/lib/dpkg/lock\n"
    ∷ "        rm -f /var/lib/apt/lists/lock\n" ∷ "      when: ansible_os_family == 'Debian'\n"
    ∷ "      ignore_errors: yes\n" ∷ "\n" ∷ "    # Check for interrupted dpkg state\n"
    ∷ "    - name: Check for interrupted dpkg state\n"
    ∷ "      ansible.builtin.shell: dpkg -l | grep -E '^i[^i]'\n" ∷ "      register: dpkg_check\n"
    ∷ "      when: ansible_os_family == 'Debian'\n" ∷ "      failed_when: false\n"
    ∷ "      changed_when: false\n" ∷ "\n" ∷ "    # Fix interrupted dpkg states only when needed\n"
    ∷ "    - name: Fix interrupted dpkg states\n"
    ∷ "      ansible.builtin.shell: dpkg --configure -a\n"
    ∷ "      when: ansible_os_family == 'Debian' and (dpkg_check.rc is defined and dpkg"
    ∷ "_check.rc == 0)\n" ∷ "      ignore_errors: yes\n" ∷ "\n" ∷ "\n" ∷ [])
