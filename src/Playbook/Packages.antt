-- ===== src/Playbook/Packages.antt =====
-- The task blocks of apps/web/app/lib/exportYaml.ts: the first template literals of
-- `generateAnsibleYAML` (packages, databases, ports), over the texts that it interpolates.
use mathlib.Core.List.{[], ◌∷◌}
use Prim.Native.String.{String}
use whiparc.Prelude.Text.{cat}

unfoldable pub update_packages_tasks : String
unfolding cat
update_packages_tasks = cat (
    "    # Update cache and upgrade packages\n"
    ∷ "    - name: Update apt cache and upgrade packages (Debian)\n"
    ∷ "      ansible.builtin.apt:\n" ∷ "        update_cache: yes\n" ∷ "        upgrade: dist\n"
    ∷ "      when: ansible_os_family == 'Debian'\n" ∷ "\n"
    ∷ "    - name: Update yum cache and upgrade packages (RedHat)\n"
    ∷ "      ansible.builtin.yum:\n" ∷ "        update_cache: yes\n" ∷ "        name: \"*\"\n"
    ∷ "        state: latest\n" ∷ "      when: ansible_os_family == 'RedHat'\n" ∷ "\n" ∷ [])

unfoldable pub nginx_tasks : String
unfolding cat
nginx_tasks = cat (
    "    # Install Nginx Web Server\n" ∷ "    - name: Install Nginx Web Server\n"
    ∷ "      ansible.builtin.package:\n" ∷ "        name: nginx\n" ∷ "        state: present\n"
    ∷ "\n" ∷ [])

unfoldable pub nodejs_tasks : String
unfolding cat
nodejs_tasks = cat (
    "    # Install xz dependency\n" ∷ "    - name: Install xz-utils (Debian)\n"
    ∷ "      ansible.builtin.package:\n" ∷ "        name: xz-utils\n" ∷ "        state: present\n"
    ∷ "      when: ansible_os_family == 'Debian'\n" ∷ "\n" ∷ "    - name: Install xz (RedHat)\n"
    ∷ "      ansible.builtin.package:\n" ∷ "        name: xz\n" ∷ "        state: present\n"
    ∷ "      when: ansible_os_family == 'RedHat'\n" ∷ "\n"
    ∷ "    # Download Node.js precompiled package\n"
    ∷ "    - name: Download Node.js precompiled package\n" ∷ "      ansible.builtin.get_url:\n"
    ∷ "        url: https://nodejs.org/dist/v18.16.0/node-v18.16.0-linux-x64.tar.xz\n"
    ∷ "        dest: /tmp/node-v18.16.0-linux-x64.tar.xz\n" ∷ "\n"
    ∷ "    # Extract Node.tar.xz to /usr/local\n"
    ∷ "    - name: Extract Node.tar.xz to /usr/local\n" ∷ "      ansible.builtin.unarchive:\n"
    ∷ "        src: /tmp/node-v18.16.0-linux-x64.tar.xz\n" ∷ "        dest: /usr/local\n"
    ∷ "        remote_src: yes\n" ∷ "        extra_opts:\n" ∷ "          - --strip-components=1\n"
    ∷ "\n" ∷ [])

unfoldable pub postgresql_tasks : String
unfolding cat
postgresql_tasks = cat (
    "    # Install PostgreSQL and psycopg2\n"
    ∷ "    - name: Install PostgreSQL and python3-psycopg2 (Debian)\n"
    ∷ "      ansible.builtin.apt:\n" ∷ "        name:\n" ∷ "          - postgresql\n"
    ∷ "          - python3-psycopg2\n" ∷ "        state: present\n"
    ∷ "      when: ansible_os_family == 'Debian'\n" ∷ "\n"
    ∷ "    - name: Install PostgreSQL and python3-psycopg2 (RedHat)\n"
    ∷ "      ansible.builtin.dnf:\n" ∷ "        name:\n" ∷ "          - postgresql-server\n"
    ∷ "          - python3-psycopg2\n" ∷ "        state: present\n"
    ∷ "      when: ansible_os_family == 'RedHat'\n" ∷ "\n"
    ∷ "    - name: Initialize PostgreSQL database (RedHat)\n"
    ∷ "      ansible.builtin.command: postgresql-setup --initdb\n" ∷ "      args:\n"
    ∷ "        creates: /var/lib/pgsql/data/PG_VERSION\n"
    ∷ "      when: ansible_os_family == 'RedHat'\n" ∷ "      ignore_errors: yes\n" ∷ "\n"
    ∷ "    - name: Ensure PostgreSQL is running and enabled\n" ∷ "      ansible.builtin.service:\n"
    ∷ "        name: postgresql\n" ∷ "        state: started\n" ∷ "        enabled: yes\n" ∷ "\n"
    ∷ [])

unfoldable pub postgresql_user_tasks : (db_user db_pass : String) → String
unfolding cat
postgresql_user_tasks db_user db_pass = cat (
    "    # Create PostgreSQL User\n" ∷ "    - name: Create PostgreSQL user\n"
    ∷ "      community.postgresql.postgresql_user:\n" ∷ "        name: \"" ∷ db_user ∷ "\"\n"
    ∷ "        password: \"" ∷ db_pass ∷ "\"\n" ∷ "        state: present\n" ∷ "\n" ∷ [])

unfoldable pub open_port_tasks : (port : String) → String
unfolding cat
open_port_tasks port = cat (
    "    # Ensure firewall package is installed\n" ∷ "    - name: Install UFW (Debian)\n"
    ∷ "      ansible.builtin.package:\n" ∷ "        name: ufw\n" ∷ "        state: present\n"
    ∷ "      when: ansible_os_family == 'Debian'\n" ∷ "\n" ∷ "    # Open Port " ∷ port ∷ " in UFW\n"
    ∷ "    - name: Open Port " ∷ port ∷ " in UFW (Debian)\n" ∷ "      ansible.builtin.ufw:\n"
    ∷ "        rule: allow\n" ∷ "        port: \"" ∷ port ∷ "\"\n" ∷ "        proto: tcp\n"
    ∷ "      when: ansible_os_family == 'Debian'\n" ∷ "      ignore_errors: yes\n" ∷ "\n"
    ∷ "    - name: Install firewalld (RedHat)\n" ∷ "      ansible.builtin.package:\n"
    ∷ "        name: firewalld\n" ∷ "        state: present\n"
    ∷ "      when: ansible_os_family == 'RedHat'\n" ∷ "\n"
    ∷ "    - name: Ensure firewalld is running (RedHat)\n" ∷ "      ansible.builtin.service:\n"
    ∷ "        name: firewalld\n" ∷ "        state: started\n" ∷ "        enabled: yes\n"
    ∷ "      when: ansible_os_family == 'RedHat'\n" ∷ "\n" ∷ "    # Open Port " ∷ port
    ∷ " in firewalld\n" ∷ "    - name: Open Port " ∷ port ∷ " in firewalld (RedHat)\n"
    ∷ "      ansible.builtin.firewalld:\n" ∷ "        port: \"" ∷ port ∷ "/tcp\"\n"
    ∷ "        permanent: yes\n" ∷ "        state: enabled\n" ∷ "        immediate: yes\n"
    ∷ "      when: ansible_os_family == 'RedHat'\n" ∷ "      ignore_errors: yes\n" ∷ "\n" ∷ [])
