-- ===== src/Playbook/Services.antt =====
-- The task blocks of apps/web/app/lib/exportYaml.ts: the later template literals of
-- `generateAnsibleYAML` (applications, users, services, files), over the texts that it interpolates.
use mathlib.Core.List.{[], ◌∷◌}
use Prim.Native.String.{String}
use whiparc.Prelude.Text.{cat}

unfoldable pub deploy_node_app_tasks : (start_command app_port : String) → String
unfolding cat
deploy_node_app_tasks start_command app_port = cat (
    "    # Deploy Node.js Application\n" ∷ "    - name: Copy application source code to server\n"
    ∷ "      ansible.builtin.copy:\n" ∷ "        src: __APP_SRC_DIR__/\n"
    ∷ "        dest: /home/ubuntu/" ∷ "app" ∷ "\n" ∷ "        owner: ubuntu\n" ∷ "\n"
    ∷ "    # Check if package.json exists in target directory\n"
    ∷ "    - name: Check if package.json exists\n" ∷ "      ansible.builtin.stat:\n"
    ∷ "        path: /home/ubuntu/" ∷ "app" ∷ "/package.json\n" ∷ "      register: pkg_json\n"
    ∷ "\n" ∷ "    # Install npm dependencies if package.json exists\n"
    ∷ "    - name: Install npm dependencies\n" ∷ "      ansible.builtin.command:\n"
    ∷ "        cmd: npm install\n" ∷ "        chdir: /home/ubuntu/" ∷ "app" ∷ "\n"
    ∷ "      when: pkg_json.stat.exists\n" ∷ "\n"
    ∷ "    # Install pm2 process manager if package.json exists\n"
    ∷ "    - name: Install pm2 process manager\n" ∷ "      ansible.builtin.command:\n"
    ∷ "        cmd: npm install -g pm2\n" ∷ "      when: pkg_json.stat.exists\n" ∷ "\n"
    ∷ "    # Start the application with pm2 if package.json exists\n"
    ∷ "    - name: Start the application with pm2\n" ∷ "      ansible.builtin.shell: pm2 delete "
    ∷ "app" ∷ " >/dev/null 2>&1 || true; PORT=" ∷ app_port ∷ " pm2 start \"" ∷ start_command
    ∷ "\" --name " ∷ "app" ∷ "\n" ∷ "      args:\n" ∷ "        chdir: /home/ubuntu/" ∷ "app" ∷ "\n"
    ∷ "      when: pkg_json.stat.exists\n" ∷ "\n" ∷ [])

unfoldable pub copy_env_tasks : String
unfolding cat
copy_env_tasks = cat (
    "    # Copy .env file to server\n" ∷ "    - name: Copy .env file to server\n"
    ∷ "      ansible.builtin.copy:\n" ∷ "        src: .env\n" ∷ "        dest: /home/ubuntu/.env\n"
    ∷ "        owner: ubuntu\n" ∷ "        group: ubuntu\n" ∷ "        mode: '0600'\n" ∷ "\n" ∷ [])

unfoldable pub apt_install_tasks : (packages_list state : String) → String
unfolding cat
apt_install_tasks packages_list state = cat (
    "    # Install system packages\n" ∷ "    - name: Install specified system packages\n"
    ∷ "      ansible.builtin.package:\n" ∷ "        name:\n" ∷ "\n" ∷ packages_list ∷ "\n"
    ∷ "        state: " ∷ state ∷ "\n" ∷ "\n" ∷ [])

unfoldable pub create_user_tasks : (username shell create_home : String) → String
unfolding cat
create_user_tasks username shell create_home = cat (
    "    # Create system user\n" ∷ "    - name: Create system user " ∷ username ∷ "\n"
    ∷ "      ansible.builtin.user:\n" ∷ "        name: \"" ∷ username ∷ "\"\n" ∷ "        shell: \""
    ∷ shell ∷ "\"\n" ∷ "        create_home: " ∷ create_home ∷ "\n" ∷ "\n" ∷ [])

unfoldable pub systemd_service_tasks : (service_name state enabled : String) → String
unfolding cat
systemd_service_tasks service_name state enabled = cat (
    "    # Manage Systemd service\n" ∷ "    - name: Manage service " ∷ service_name ∷ "\n"
    ∷ "      ansible.builtin.systemd:\n" ∷ "        name: \"" ∷ service_name ∷ "\"\n"
    ∷ "        state: \"" ∷ state ∷ "\"\n" ∷ "        enabled: " ∷ enabled ∷ "\n" ∷ "\n" ∷ [])

unfoldable pub git_clone_tasks : (repo dest_path branch : String) → String
unfolding cat
git_clone_tasks repo dest_path branch = cat (
    "    # Git Clone Repository\n" ∷ "    - name: Ensure git is installed on target host\n"
    ∷ "      ansible.builtin.apt:\n" ∷ "        name: git\n" ∷ "        state: present\n"
    ∷ "        update_cache: yes\n" ∷ "      become: yes\n" ∷ "      ignore_errors: yes\n" ∷ "\n"
    ∷ "    - name: Ensure destination directory exists\n" ∷ "      ansible.builtin.file:\n"
    ∷ "        path: \"" ∷ dest_path ∷ "\"\n" ∷ "        state: directory\n"
    ∷ "        owner: ubuntu\n" ∷ "        mode: '0755'\n" ∷ "\n"
    ∷ "    - name: Clone codebase from git repository\n" ∷ "      ansible.builtin.git:\n"
    ∷ "        repo: \"" ∷ repo ∷ "\"\n" ∷ "        dest: \"" ∷ dest_path ∷ "\"\n"
    ∷ "        version: \"" ∷ branch ∷ "\"\n" ∷ "        clone: yes\n" ∷ "        update: yes\n"
    ∷ "        force: yes\n" ∷ "      ignore_errors: yes\n" ∷ "\n" ∷ [])

unfoldable pub shell_command_tasks : (command chdir : String) → String
unfolding cat
shell_command_tasks command chdir = cat (
    "    # Run shell command\n" ∷ "    - name: Run arbitrary CLI shell command\n"
    ∷ "      ansible.builtin.shell:\n" ∷ "        cmd: \"" ∷ command ∷ "\"\n" ∷ "        chdir: \""
    ∷ chdir ∷ "\"\n" ∷ "\n" ∷ [])

unfoldable pub file_copy_tasks : (src_path dest_path owner mode : String) → String
unfolding cat
file_copy_tasks src_path dest_path owner mode = cat (
    "    # Copy custom file\n" ∷ "    - name: Copy local file to target path\n"
    ∷ "      ansible.builtin.copy:\n" ∷ "        src: \"" ∷ src_path ∷ "\"\n" ∷ "        dest: \""
    ∷ dest_path ∷ "\"\n" ∷ "        owner: \"" ∷ owner ∷ "\"\n" ∷ "        mode: \"" ∷ mode ∷ "\"\n"
    ∷ "\n" ∷ [])

unfoldable pub custom_tasks : (label lines : String) → String
unfolding cat
custom_tasks label lines = cat ("    # Custom block: " ∷ label ∷ "\n" ∷ lines ∷ "\n" ∷ "\n" ∷ [])
