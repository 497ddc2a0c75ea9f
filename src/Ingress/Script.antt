-- ===== src/Ingress/Script.antt =====
-- internal/controller/ingress_proxy_controller.go: the shell text, line by line, that finds the
-- WireGuard address inside the proxy container.
use netmaker_k8s_ops.Base.{String, ◌<>◌, List, [], ◌∷◌}

abbrev concat : List String → String
concat [] = ""
concat (line ∷ lines) = line <> concat lines

detect_lines : List String
detect_lines =
    "# Wait for WireGuard interface to be ready and get dynamic IP\n"
    ∷ "# Try common WireGuard interface names: netmaker, wg0, wg1, etc.\n"
    ∷ "# WireGuard interfaces may show as state UNKNOWN or UP, so check for interface existence and IP presence\n"
    ∷ "WG_INTERFACE=\"\"\n" ∷ "WG_IP=\"\"\n" ∷ "\n"
    ∷ "# First, try to find interface by name and get its IP\n"
    ∷ "for iface in netmaker wg0 wg1; do\n"
    ∷ "  if ip link show \"$iface\" 2>/dev/null >/dev/null; then\n"
    ∷ "    # Interface exists, check if it has an IP\n"
    ∷ "    WG_IP=$(ip addr show \"$iface\" 2>/dev/null | grep \"inet \" | awk '{print $2}' | cut -d/ -f1 | head -n1)\n"
    ∷ "    if [ -n \"$WG_IP\" ]; then\n" ∷ "      WG_INTERFACE=\"$iface\"\n"
    ∷ "      echo \"Found WireGuard IP: $WG_IP on interface $WG_INTERFACE\"\n" ∷ "      break\n"
    ∷ "    fi\n" ∷ "  fi\n" ∷ "done\n" ∷ "\n"
    ∷ "# If no interface found with IP, wait and retry (netclient might still be starting)\n"
    ∷ "if [ -z \"$WG_INTERFACE\" ]; then\n"
    ∷ "  echo \"Waiting for WireGuard interface to be created and get IP...\"\n"
    ∷ "  for i in $(seq 1 60); do\n" ∷ "    for iface in netmaker wg0 wg1; do\n"
    ∷ "      if ip link show \"$iface\" 2>/dev/null >/dev/null; then\n"
    ∷ "        WG_IP=$(ip addr show \"$iface\" 2>/dev/null | grep \"inet \" | awk '{print $2}' | cut -d/ -f1 | head -n1)\n"
    ∷ "        if [ -n \"$WG_IP\" ]; then\n" ∷ "          WG_INTERFACE=\"$iface\"\n"
    ∷ "          echo \"Found WireGuard IP: $WG_IP on interface $WG_INTERFACE\"\n"
    ∷ "          break 2\n" ∷ "        fi\n" ∷ "      fi\n" ∷ "    done\n" ∷ "    sleep 1\n"
    ∷ "  done\n" ∷ "fi\n" ∷ "\n"
    ∷ "# Fallback: if still no IP, look for POINTOPOINT interfaces (WireGuard uses POINTOPOINT)\n"
    ∷ "# Exclude eth0 and other non-WireGuard interfaces\n" ∷ "if [ -z \"$WG_IP\" ]; then\n"
    ∷ "  echo \"Trying to detect WireGuard IP from POINTOPOINT interfaces...\"\n"
    ∷ "  # Find all POINTOPOINT interfaces (WireGuard characteristic)\n"
    ∷ "  for iface in $(ip link show | grep -B 1 \"POINTOPOINT\" | grep \"^[0-9]\" | awk '{print $2}' | cut -d: -f1 | sed 's/@.*//' | grep -v \"^lo$\" | grep -v \"^eth\"); do\n"
    ∷ "    if ip link show \"$iface\" 2>/dev/null >/dev/null; then\n"
    ∷ "      WG_IP=$(ip addr show \"$iface\" 2>/dev/null | grep \"inet \" | awk '{print $2}' | cut -d/ -f1 | head -n1)\n"
    ∷ "      if [ -n \"$WG_IP\" ]; then\n" ∷ "        WG_INTERFACE=\"$iface\"\n"
    ∷ "        echo \"Found WireGuard IP: $WG_IP on POINTOPOINT interface $WG_INTERFACE\"\n"
    ∷ "        break\n" ∷ "      fi\n" ∷ "    fi\n" ∷ "  done\n" ∷ "fi\n" ∷ "\n"
    ∷ "# Final fallback: bind to all interfaces (less secure but ensures connectivity)\n"
    ∷ "if [ -z \"$WG_IP\" ]; then\n"
    ∷ "  echo \"Warning: Could not detect WireGuard IP dynamically, binding to all interfaces (0.0.0.0)\"\n"
    ∷ "  echo \"This may expose the service on all network interfaces. Consider setting netmaker.io/ingress-bind-ip annotation.\"\n"
    ∷ "  WG_IP=\"0.0.0.0\"\n" ∷ "fi\n" ∷ "\n" ∷ "echo \"Using WireGuard IP: $WG_IP\"\n" ∷ []

unfoldable pub detect_script : String
unfolding detect_lines
detect_script = concat detect_lines
